-- ===== src/Manager/Known.antt =====
-- What becomes of the advertisements that are known (AdManager.cpp, `_mapAd`).
use ad_manager.Manager.Calls.{
  Call, requests_ad, requests_ad_list, requests_policy, downloads, gets_ad, manager_step,
  manager_run,
}
use ad_manager.Base.{
  ℕ, ◌+◌, ◌≡◌, refl, ap, ◌∙◌, inl, inr, Bool, true, false, Option, none, some, List, [], ◌∷◌, arith,
  Bool-cases, Option-cases, if_both, is_zero, find, insert, find-insert,
}
use ad_manager.Wire.{Bytes}
use ad_manager.Message.Types.{Codec}
use ad_manager.Manager.Types.{Manager, Ad, empty_ad, AdPlayPolicy, Outside}
use ad_manager.Manager.Download.{
  touch, collect, fetch_all, try_urls, download_ad, download_from_server, download_needed,
  download_ads, any_missing, arm_download, drop_stale, policy_ids, store_or, accept, download_found,
}
use ad_manager.Manager.Requests.{
  ad_list_request, policy_request, add_lock_ad, add_lock_ads, lock_ids, add_ad, add_ads,
  utf8_to_gb2312, request_ad, request_ad_list, request_ad_play_policy, on_ad_list, on_policy,
  for_lock_screen, keep_ad_list, on_ad_answer, parse_if_ok, ad_request,
}
use ad_manager.Manager.Queries.{get_ad}

-- Each advertisement that the first state knows is known, the same, to the second.
pub record Keeps (a b : Manager) : Type 0 where
  pub keeps : (id : ℕ) (ad : Ad) → find id a.map_ad ≡ some ad → find id b.map_ad ≡ some ad

pub Keeps-same : (a b : Manager) → b.map_ad ≡ a.map_ad → Keeps a b
Keeps-same a b e = record { keeps = λ id ad h. ap (find id) e ∙ h }

pub Keeps-trans : {a b c : Manager} → Keeps a b → Keeps b c → Keeps a c
Keeps-trans k l = record { keeps = λ id ad h. l.keeps id ad (k.keeps id ad h) }

insert_keeps :
    (k : ℕ) (v : Ad) (m : List (ℕ × Ad)) (id : ℕ) (ad : Ad)
    → find id m ≡ some ad
    → find id (insert k v m) ≡ some ad
insert_keeps k v m id ad h = ground (arith, find-insert k id v m)

pub touch-Keeps : (id : ℕ) (a : Manager) → Keeps a (touch id a)
unfolding touch
touch-Keeps id a = record { keeps = insert_keeps id empty_ad a.map_ad }

touched :
    (id : ℕ) (a : Manager) → find id a.map_ad ≡ none → find id (touch id a).map_ad ≡ some empty_ad
unfolding touch
touched id a h = ground (arith, find-insert id id empty_ad a.map_ad)

pub collect-Keeps : (more ids : List ℕ) (a : Manager) → Keeps a (collect more ids a).1
unfolding collect
collect-Keeps [] ids a = Keeps-same a a refl
collect-Keeps (id ∷ more) ids a = Keeps-trans (touch-Keeps id a) (collect-Keeps more _ (touch id a))

pub add_lock_ads-Keeps : (ids : List ℕ) (a : Manager) → Keeps a (add_lock_ads ids a)
unfolding add_lock_ads add_lock_ad
add_lock_ads-Keeps [] a = Keeps-same a a refl
add_lock_ads-Keeps (id ∷ ids) a =
    Keeps-trans (record { keeps = (touch-Keeps id a).keeps })
      (add_lock_ads-Keeps ids (add_lock_ad id a))

module _ (codec : Codec) (o : Outside) where
  try_urls-map :
      (id : ℕ) (ad : Ad) (n : ℕ) (urls : List Bytes) (a : Manager)
      → (try_urls codec o id ad n urls a).map_ad ≡ a.map_ad
  unfolding try_urls
  try_urls-map id ad n [] a = refl
  try_urls-map id ad n (url ∷ urls) a = elim (Option-cases (accept o ad (o.http_get id n url))) [
    | inl e ↦ rw (e, store_or) (try_urls-map id ad (n + 1) urls a)
    | inr (body, e) ↦ rw (e, store_or) refl
  ]

  download_from_server-map :
      (id : ℕ) (ad : Ad) (a : Manager) → (download_from_server o id ad a).map_ad ≡ a.map_ad
  unfolding download_from_server
  download_from_server-map id ad a = ground arith

  download_ad-map : (id : ℕ) (a : Manager) → (download_ad codec o id a).map_ad ≡ a.map_ad
  unfolding download_ad
  download_ad-map id a = elim (Option-cases (find id a.map_ad)) [
    | inl e ↦ rw (e, download_found) refl
    | inr (ad, e) ↦
        rw (e, download_found)
          (ground (arith, try_urls-map id ad 0 ad.download a, download_from_server-map id ad a))
  ]

  pub fetch_all-map : (ids : List ℕ) (a : Manager) → (fetch_all codec o ids a).map_ad ≡ a.map_ad
  unfolding fetch_all
  fetch_all-map [] a = refl
  fetch_all-map (id ∷ ids) a = fetch_all-map ids _ ∙ ground (arith, download_ad-map id a)

  pub download_needed-map :
      (ids : List ℕ) (a : Manager) → (download_needed codec o ids a).map_ad ≡ a.map_ad
  unfolding download_needed
  download_needed-map ids a =
      let b = fetch_all codec o ids (drop_stale ids a) in
      elim (Bool-cases (any_missing ids b)) [
        | inl e ↦ rw (e, arm_download) (fetch_all-map ids (drop_stale ids a))
        | inr e ↦ rw (e, arm_download) (fetch_all-map ids (drop_stale ids a))
      ]

  pub download_ads-Keeps : (a : Manager) → Keeps a (download_ads codec o a)
  unfolding download_ads
  download_ads-Keeps a =
      let (ids, b) = collect (policy_ids a.policy) [] a in
      if_both (Keeps a) a.is_end_business a (download_needed codec o ids b)
        (λ e. Keeps-same a a refl)
        (λ e.
          Keeps-trans (collect-Keeps (policy_ids a.policy) [] a)
            (Keeps-same b _ (download_needed-map ids b)))

  pub add_ad-Keeps : (ad : Ad) (a : Manager) → Keeps a (add_ad o ad a)
  add_ad-Keeps ad a = record { keeps = insert_keeps ad.id (utf8_to_gb2312 o ad) a.map_ad }

  pub add_ads-Keeps : (ads : List Ad) (a : Manager) → Keeps a (add_ads o ads a)
  unfolding add_ads
  add_ads-Keeps [] a = Keeps-same a a refl
  add_ads-Keeps (ad ∷ ads) a = Keeps-trans (add_ad-Keeps ad a) (add_ads-Keeps ads (add_ad o ad a))

  pub for_lock_screen-Keeps : (a : Manager) → Keeps a (for_lock_screen a)
  for_lock_screen-Keeps a =
      if_both (Keeps a) a.is_bar_server a _ (λ e. Keeps-same a a refl)
        (λ e. add_lock_ads-Keeps (lock_ids a.policy) a)

  on_ad_list-Keeps :
      (content : Bytes) (ads : Option (List Ad)) (a : Manager)
      → Keeps a (on_ad_list codec o content ads a)
  on_ad_list-Keeps content none a = Keeps-same a _ refl
  on_ad_list-Keeps content (some ads) a =
      let b = keep_ad_list codec o content ads a in
      Keeps-trans (record { keeps = (add_ads-Keeps ads _).keeps })
        (Keeps-trans (for_lock_screen-Keeps b) (download_ads-Keeps (for_lock_screen b)))

  request_ad_list-Keeps : (a : Manager) → Keeps a (request_ad_list codec o a)
  unfolding request_ad_list
  request_ad_list-Keeps a =
      if_both (Keeps a) a.is_end_business a _ (λ e. Keeps-same a a refl)
        (λ e.
          on_ad_list-Keeps (o.peer ad_list_request).content
            (parse_if_ok o.parse_ads (o.peer ad_list_request)) a)

  on_policy-Keeps :
      (content : Bytes) (p : AdPlayPolicy × Bool) (a : Manager)
      → Keeps a (on_policy codec o content p a)
  on_policy-Keeps content (policy, true) a =
      Keeps-trans (Keeps-same a _ refl) (request_ad_list-Keeps _)
  on_policy-Keeps content (policy, false) a = Keeps-same a _ refl

  request_ad_play_policy-Keeps : (a : Manager) → Keeps a (request_ad_play_policy codec o a)
  unfolding request_ad_play_policy
  request_ad_play_policy-Keeps a =
      let rsp = o.peer (policy_request o a) in
      if_both (Keeps a) a.is_end_business a _ (λ e. Keeps-same a a refl)
        (λ e.
          if_both (Keeps a) (is_zero rsp.return_code) _ _
            (λ z. on_policy-Keeps rsp.content (o.parse_policy rsp.content) a)
            (λ z. Keeps-same a _ refl))

  on_ad_answer-Keeps : (ad : Option Ad) (a : Manager) → Keeps a (on_ad_answer o ad a).0
  on_ad_answer-Keeps none a = Keeps-same a a refl
  on_ad_answer-Keeps (some ad) a = add_ad-Keeps ad a

  manager_step-Keeps : (c : Call) (a : Manager) → Keeps a (manager_step codec o c a)
  unfolding manager_step
  manager_step-Keeps (requests_ad id) a =
      unfold request_ad in on_ad_answer-Keeps (parse_if_ok o.parse_ad (o.peer (ad_request id))) a
  manager_step-Keeps requests_ad_list a = request_ad_list-Keeps a
  manager_step-Keeps requests_policy a = request_ad_play_policy-Keeps a
  manager_step-Keeps downloads a = download_ads-Keeps a
  manager_step-Keeps (gets_ad id) a = unfold get_ad in touch-Keeps id a

module _ (codec : Codec) where
  -- Whatever is requested, an advertisement that is known stays as it is: its number leads to the
  -- same data after every history, also when the center has sent a newer version of it.
  pub known_forever :
      (cs : List (Outside × Call)) (a : Manager) (id : ℕ) (ad : Ad)
      → find id a.map_ad ≡ some ad
      → find id (manager_run codec cs a).map_ad ≡ some ad
  unfolding manager_run
  known_forever [] a id ad h = h
  known_forever ((o, c) ∷ cs) a id ad h =
      known_forever cs (manager_step codec o c a) id ad
        ((manager_step-Keeps codec o c a).keeps id ad h)

  -- An advertisement that is asked for by its number before the center has sent it is empty from
  -- then on, after every history.
  pub asked_early_stays_empty :
      (cs : List (Outside × Call)) (a : Manager) (id : ℕ)
      → find id a.map_ad ≡ none
      → (get_ad id (manager_run codec cs (get_ad id a).0)).1 ≡ empty_ad
  unfolding get_ad
  asked_early_stays_empty cs a id h =
      rw (known_forever cs (touch id a) id empty_ad (touched id a h)) refl
