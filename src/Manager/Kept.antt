-- ===== src/Manager/Kept.antt =====
-- What the downloads and the lists of the manager leave as it was: the policy, and the answers that
-- are kept for the clients (AdManager.cpp).
use ad_manager.Base.{
  ℕ, ◌+◌, ◌≡◌, refl, ◌∙◌, inl, inr, List, [], ◌∷◌, arith, Bool-cases, Option-cases, if_both, find,
}
use ad_manager.Wire.{Bytes}
use ad_manager.Message.Types.{Codec}
use ad_manager.Manager.Types.{Manager, Ad, AdPlayPolicy, Outside}
use ad_manager.Manager.Download.{
  touch, collect, fetch_all, try_urls, download_ad, download_from_server, download_needed,
  download_ads, any_missing, arm_download, drop_stale, policy_ids, store_or, accept, download_found,
}
use ad_manager.Manager.Requests.{
  add_lock_ad, add_lock_ads, lock_ids, add_ad, add_ads, for_lock_screen,
}

-- The policy, and the answers with the policy and with the list of advertisements.
abbrev pub answers : Manager → AdPlayPolicy × Bytes × Bytes
answers a = (a.policy, a.buf_policy, a.buf_ad_list)

answers-collect : (more ids : List ℕ) (a : Manager) → answers (collect more ids a).1 ≡ answers a
unfolding collect touch
answers-collect [] ids a = refl
answers-collect (id ∷ more) ids a = answers-collect more _ (touch id a)

answers-add_lock_ads : (ids : List ℕ) (a : Manager) → answers (add_lock_ads ids a) ≡ answers a
unfolding add_lock_ads add_lock_ad touch
answers-add_lock_ads [] a = refl
answers-add_lock_ads (id ∷ ids) a = answers-add_lock_ads ids (add_lock_ad id a)

pub answers-for_lock_screen : (a : Manager) → answers (for_lock_screen a) ≡ answers a
answers-for_lock_screen a =
    if_both (λ b. answers b ≡ answers a) a.is_bar_server a _ (λ e. refl)
      (λ e. answers-add_lock_ads (lock_ids a.policy) a)

pub answers-add_ads :
    (o : Outside) (ads : List Ad) (a : Manager) → answers (add_ads o ads a) ≡ answers a
unfolding add_ads
answers-add_ads o [] a = refl
answers-add_ads o (ad ∷ ads) a = answers-add_ads o ads (add_ad o ad a)

module _ (codec : Codec) (o : Outside) where
  answers-try_urls :
      (id : ℕ) (ad : Ad) (n : ℕ) (urls : List Bytes) (a : Manager)
      → answers (try_urls codec o id ad n urls a) ≡ answers a
  unfolding try_urls
  answers-try_urls id ad n [] a = refl
  answers-try_urls id ad n (url ∷ urls) a =
      elim (Option-cases (accept o ad (o.http_get id n url))) [
        | inl e ↦ rw (e, store_or) (answers-try_urls id ad (n + 1) urls a)
        | inr (body, e) ↦ rw (e, store_or) refl
      ]

  answers-download_from_server :
      (id : ℕ) (ad : Ad) (a : Manager) → answers (download_from_server o id ad a) ≡ answers a
  unfolding download_from_server
  answers-download_from_server id ad a = ground arith

  answers-download_ad : (id : ℕ) (a : Manager) → answers (download_ad codec o id a) ≡ answers a
  unfolding download_ad
  answers-download_ad id a = elim (Option-cases (find id a.map_ad)) [
    | inl e ↦ rw (e, download_found) refl
    | inr (ad, e) ↦
        rw (e, download_found)
          (ground
            (arith, answers-try_urls id ad 0 ad.download a, answers-download_from_server id ad a))
  ]

  answers-fetch_all : (ids : List ℕ) (a : Manager) → answers (fetch_all codec o ids a) ≡ answers a
  unfolding fetch_all
  answers-fetch_all [] a = refl
  answers-fetch_all (id ∷ ids) a =
      answers-fetch_all ids _ ∙ ground (arith, answers-download_ad id a)

  answers-download_needed :
      (ids : List ℕ) (a : Manager) → answers (download_needed codec o ids a) ≡ answers a
  unfolding download_needed
  answers-download_needed ids a =
      let b = fetch_all codec o ids (drop_stale ids a) in
      elim (Bool-cases (any_missing ids b)) [
        | inl e ↦ rw (e, arm_download) (answers-fetch_all ids (drop_stale ids a))
        | inr e ↦ rw (e, arm_download) (answers-fetch_all ids (drop_stale ids a))
      ]

  pub answers-download_ads : (a : Manager) → answers (download_ads codec o a) ≡ answers a
  unfolding download_ads
  answers-download_ads a =
      let (ids, b) = collect (policy_ids a.policy) [] a in
      if_both (λ c. answers c ≡ answers a) a.is_end_business a (download_needed codec o ids b)
        (λ e. refl)
        (λ e. answers-download_needed ids b ∙ answers-collect (policy_ids a.policy) [] a)
