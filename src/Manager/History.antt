-- ===== src/Manager/History.antt =====
-- Every operation of the manager keeps only files that have their digest (AdManager.cpp).
use ad_manager.Base.{
  ℕ, ◌≡◌, refl, sym, ap, ◌∙◌, Bool, true, false, Option, none, some, List, [], ◌∷◌, if_both, All,
  is_zero, find,
}
use ad_manager.Wire.{Bytes}
use ad_manager.Message.Types.{Codec}
use ad_manager.Manager.Types.{Manager, Ad, AdPlayPolicy, Outside}
use ad_manager.Manager.Download.{touch, download_ads}
use ad_manager.Manager.Calls.{
  Call, requests_ad, requests_ad_list, requests_policy, downloads, gets_ad, manager_step,
  manager_run,
}
use ad_manager.Manager.Requests.{
  ad_list_request, ad_list_message, policy_request, add_lock_ad, add_lock_ads, lock_ids, add_ad,
  add_ads, request_ad, request_ad_list, request_ad_play_policy, on_ad_list, on_policy,
  for_lock_screen, keep_ad_list, on_ad_answer, parse_if_ok, ad_request,
}
use ad_manager.Manager.Queries.{get_ad}
use ad_manager.Manager.Known.{
  Keeps, Keeps-same, touch-Keeps, add_ad-Keeps, add_ads-Keeps, for_lock_screen-Keeps,
}
use ad_manager.Manager.Verified.{IsVerified, IsVerified-mono, download_ads-IsVerified}

pub record SameFiles (a b : Manager) : Type 0 where
  pub images : b.buf_images ≡ a.buf_images
  pub server : b.is_bar_server ≡ a.is_bar_server

SameFiles-trans : {a b c : Manager} → SameFiles a b → SameFiles b c → SameFiles a c
SameFiles-trans k l = record { images = l.images ∙ k.images; server = l.server ∙ k.server }

add_lock_ads-SameFiles : (ids : List ℕ) (a : Manager) → SameFiles a (add_lock_ads ids a)
unfolding add_lock_ads add_lock_ad touch
add_lock_ads-SameFiles [] a = record { images = refl; server = refl }
add_lock_ads-SameFiles (id ∷ ids) a =
    SameFiles-trans (record { images = refl; server = refl })
      (add_lock_ads-SameFiles ids (add_lock_ad id a))

for_lock_screen-SameFiles : (a : Manager) → SameFiles a (for_lock_screen a)
for_lock_screen-SameFiles a =
    if_both (SameFiles a) a.is_bar_server a _ (λ e. record { images = refl; server = refl })
      (λ e. add_lock_ads-SameFiles (lock_ids a.policy) a)

add_ads-SameFiles : (o : Outside) (ads : List Ad) (a : Manager) → SameFiles a (add_ads o ads a)
unfolding add_ads
add_ads-SameFiles o [] a = record { images = refl; server = refl }
add_ads-SameFiles o (ad ∷ ads) a =
    SameFiles-trans (record { images = refl; server = refl })
      (add_ads-SameFiles o ads (add_ad o ad a))

module _ (codec : Codec) (digest : Bytes → Bytes) (upper : Bytes → Bytes) where
  abbrev Right : Manager → Type 0
  Right = IsVerified codec digest upper

  Right-same : (a b : Manager) → Keeps a b → SameFiles a b → Right a → Right b
  Right-same a b k s v =
      IsVerified-mono codec digest upper a b k s.server
        (λ id buf h. ap (find id) (sym s.images) ∙ h) v

  download_ads-Right :
      (o : Outside) (a : Manager)
      → o.hex_digest ≡ digest
      → o.to_upper ≡ upper
      → Right a
      → Right (download_ads codec o a)
  download_ads-Right o a p q v = rw (sym p, sym q) (download_ads-IsVerified codec o a (rw (p, q) v))

  on_ad_list-Right :
      (o : Outside) (content : Bytes) (ads : Option (List Ad)) (a : Manager)
      → o.hex_digest ≡ digest
      → o.to_upper ≡ upper
      → Right a
      → Right (on_ad_list codec o content ads a)
  on_ad_list-Right o content none a p q v =
      Right-same a _ (Keeps-same a _ refl) (record { images = refl; server = refl }) v
  on_ad_list-Right o content (some ads) a p q v =
      let b = keep_ad_list codec o content ads a in
      let s =
        add_ads-SameFiles o ads
          (record a { buf_ad_list = codec.serialize (ad_list_message content) }) in
      download_ads-Right o (for_lock_screen b) p q (
        Right-same b _ (for_lock_screen-Keeps codec o b) (for_lock_screen-SameFiles b) (
          Right-same a b (record { keeps = (add_ads-Keeps codec o ads _).keeps })
            (record { images = s.images; server = s.server }) v))

  request_ad_list-Right :
      (o : Outside) (a : Manager)
      → o.hex_digest ≡ digest
      → o.to_upper ≡ upper
      → Right a
      → Right (request_ad_list codec o a)
  unfolding request_ad_list
  request_ad_list-Right o a p q v =
      if_both Right a.is_end_business a _ (λ e. v)
        (λ e.
          on_ad_list-Right o (o.peer ad_list_request).content
            (parse_if_ok o.parse_ads (o.peer ad_list_request)) a p q v)

  on_policy-Right :
      (o : Outside) (content : Bytes) (policy : AdPlayPolicy × Bool) (a : Manager)
      → o.hex_digest ≡ digest
      → o.to_upper ≡ upper
      → Right a
      → Right (on_policy codec o content policy a)
  on_policy-Right o content (policy, true) a p q v =
      request_ad_list-Right o _ p q
        (Right-same a _ (Keeps-same a _ refl) (record { images = refl; server = refl }) v)
  on_policy-Right o content (policy, false) a p q v =
      Right-same a _ (Keeps-same a _ refl) (record { images = refl; server = refl }) v

  request_ad_play_policy-Right :
      (o : Outside) (a : Manager)
      → o.hex_digest ≡ digest
      → o.to_upper ≡ upper
      → Right a
      → Right (request_ad_play_policy codec o a)
  unfolding request_ad_play_policy
  request_ad_play_policy-Right o a p q v =
      let rsp = o.peer (policy_request o a) in
      if_both Right a.is_end_business a _ (λ e. v)
        (λ e.
          if_both Right (is_zero rsp.return_code) _ _
            (λ z. on_policy-Right o rsp.content (o.parse_policy rsp.content) a p q v)
            (λ z. Right-same a _ (Keeps-same a _ refl) (record { images = refl; server = refl }) v))

  on_ad_answer-Right :
      (o : Outside) (ad : Option Ad) (a : Manager) → Right a → Right (on_ad_answer o ad a).0
  on_ad_answer-Right o none a v = v
  on_ad_answer-Right o (some ad) a v =
      Right-same a _ (add_ad-Keeps codec o ad a) (record { images = refl; server = refl }) v

  manager_step-Right :
      (o : Outside) (c : Call) (a : Manager)
      → o.hex_digest ≡ digest
      → o.to_upper ≡ upper
      → Right a
      → Right (manager_step codec o c a)
  unfolding manager_step touch
  manager_step-Right o (requests_ad id) a p q v =
      unfold request_ad in
      on_ad_answer-Right o (parse_if_ok o.parse_ad (o.peer (ad_request id))) a v
  manager_step-Right o requests_ad_list a p q v = request_ad_list-Right o a p q v
  manager_step-Right o requests_policy a p q v = request_ad_play_policy-Right o a p q v
  manager_step-Right o downloads a p q v = download_ads-Right o a p q v
  manager_step-Right o (gets_ad id) a p q v =
      unfold get_ad in Right-same a _ (touch-Keeps id a) (record { images = refl; server = refl }) v

  abbrev pub HasDigest : Outside × Call → Type 0
  HasDigest (o, c) = (o.hex_digest ≡ digest) × (o.to_upper ≡ upper)

  -- If every file that is kept is the right one, it is so after every history in which the digest
  -- and the case mapping are the given ones, whatever the other side and the addresses give: the
  -- advertisement under the file's number is known, and the file has the digest that it names, up
  -- to case. The server keeps the answer that carries the file, the client the file.
  pub manager_run-IsVerified :
      (cs : List (Outside × Call)) (a : Manager)
      → All HasDigest cs
      → IsVerified codec digest upper a
      → IsVerified codec digest upper (manager_run codec cs a)
  unfolding manager_run
  manager_run-IsVerified [] a all v = v
  manager_run-IsVerified ((o, c) ∷ cs) a ((p, q), all) v =
      manager_run-IsVerified cs (manager_step codec o c a) all (manager_step-Right o c a p q v)
