-- ===== src/Manager/Verified.antt =====
-- Which files are kept: only such as have the digest that their advertisement names (AdManager.cpp,
-- downloadAd and `_bufImages`).
use ad_manager.Base.{
  ℕ, ◌+◌, ◌≡◌, refl, sym, ap, ◌∙◌, subst, ◌⊎◌, inl, inr, Bool, true, false, Option, none, some,
  List, [], ◌∷◌, arith, if◌then◌else◌, Option-cases, if_both, is_empty, is_zero, find, insert,
  find-insert, find-keep_keys,
}
use ad_manager.Wire.{Bytes, bytes_eq}
use ad_manager.Message.Types.{Codec}
use ad_manager.Manager.Types.{Manager, Ad, Outside, HttpResponse}
use ad_manager.Manager.Known.{Keeps, Keeps-same, collect-Keeps}
use ad_manager.Manager.Download.{
  touch, collect, fetch_all, try_urls, download_ad, download_from_server, download_needed,
  download_ads, contains, is_cached, arm_download, drop_stale, policy_ids, store_or, accept,
  store_client, digest_matches, download_found, file_message, file_request,
}

module _ (codec : Codec) (digest : Bytes → Bytes) (upper : Bytes → Bytes) where
  -- What is kept of a file: the server keeps the answer that carries it, the client the file.
  abbrev pub kept_as : Bool → Bytes → Bytes
  kept_as server body = if server then codec.serialize (file_message body) else body

  -- The advertisement is known, and the file has its digest, up to the case of letters.
  abbrev pub IsRightFile : Manager → ℕ → Bytes → Type 0
  IsRightFile a id buf =
      (ad : Ad) × (body : Bytes) × (find id a.map_ad ≡ some ad)
      × (bytes_eq (upper ad.md5) (upper (digest body)) ≡ true)
      × (buf ≡ kept_as a.is_bar_server body)

  pub record IsVerified (a : Manager) : Type 0 where
    pub right : (id : ℕ) (buf : Bytes) → find id a.buf_images ≡ some buf → IsRightFile a id buf

  IsRightFile-move :
      (a b : Manager)
      → Keeps a b
      → b.is_bar_server ≡ a.is_bar_server
      → (id : ℕ) (buf : Bytes) → IsRightFile a id buf
      → IsRightFile b id buf
  IsRightFile-move a b k server id buf (ad, body, known, matches, same) =
      (ad, body, k.keeps id ad known, matches, same ∙ ap (λ s. kept_as s body) (sym server))

  -- More advertisements and fewer files keep it.
  pub IsVerified-mono :
      (a b : Manager)
      → Keeps a b
      → b.is_bar_server ≡ a.is_bar_server
      → ((id : ℕ) (buf : Bytes) → find id b.buf_images ≡ some buf → find id a.buf_images ≡ some buf)
      → IsVerified a
      → IsVerified b
  IsVerified-mono a b k server fewer v = record {
    right = λ id buf h. IsRightFile-move a b k server id buf (v.right id buf (fewer id buf h));
  }

  insert-origin :
      (k j : ℕ) (v w : Bytes) (m : List (ℕ × Bytes))
      → find j (insert k v m) ≡ some w
      → ((k ≡ j) × (v ≡ w)) ⊎ (find j m ≡ some w)
  insert-origin k j v w m h = elim (Option-cases (find j m)) [
    | inl e ↦ ground (arith, find-insert k j v m)
    | inr (old, e) ↦ ground (arith, find-insert k j v m)
  ]

  -- A right file may be added.
  pub IsVerified-insert :
      (a b : Manager)
      → Keeps a b
      → b.is_bar_server ≡ a.is_bar_server
      → (id : ℕ) (buf : Bytes) → b.buf_images ≡ insert id buf a.buf_images
      → IsRightFile a id buf
      → IsVerified a
      → IsVerified b
  IsVerified-insert a b k server id buf images new v = record {
    right = λ id' buf' h.
        elim (insert-origin id id' buf buf' a.buf_images (sym (ap (find id') images) ∙ h)) [
          | inl (p, q) ↦
              IsRightFile-move a b k server id' buf'
                (subst (IsRightFile a id') q (subst (λ i. IsRightFile a i buf) p new))
          | inr old ↦ IsRightFile-move a b k server id' buf' (v.right id' buf' old)
        ];
  }

module _ (codec : Codec) (o : Outside) where
  abbrev Right : Manager → Type 0
  Right = IsVerified codec o.hex_digest o.to_upper

  accept-matches :
      (ad : Ad) (r : Option HttpResponse) (body : Bytes)
      → accept o ad r ≡ some body
      → digest_matches o ad body ≡ true
  accept-matches ad none body h = ground arith
  accept-matches ad (some r) body h = ground arith

  try_urls-Right :
      (id : ℕ) (ad : Ad) (n : ℕ) (urls : List Bytes) (a : Manager)
      → find id a.map_ad ≡ some ad
      → a.is_bar_server ≡ true
      → Right a
      → Right (try_urls codec o id ad n urls a)
  unfolding try_urls
  try_urls-Right id ad n [] a known server v = v
  try_urls-Right id ad n (url ∷ urls) a known server v =
      elim (Option-cases (accept o ad (o.http_get id n url))) [
        | inl e ↦ rw (e, store_or) (try_urls-Right id ad (n + 1) urls a known server v)
        | inr (body, e) ↦
            rw (e, store_or)
              (IsVerified-insert codec o.hex_digest o.to_upper a _ (Keeps-same a _ refl) refl id _
                refl
                (ad, body, known, accept-matches ad (o.http_get id n url) body e, rw server refl) v)
      ]

  download_from_server-Right :
      (id : ℕ) (ad : Ad) (a : Manager)
      → find id a.map_ad ≡ some ad
      → a.is_bar_server ≡ false
      → Right a
      → Right (download_from_server o id ad a)
  unfolding download_from_server
  download_from_server-Right id ad a known client v =
      let body = (o.peer (file_request id)).content in
      if_both Right (is_zero (o.peer (file_request id)).return_code) _ _
        (λ e.
          if_both Right (digest_matches o ad body) _ _
            (λ m.
              IsVerified-insert codec o.hex_digest o.to_upper a (store_client id body a)
                (Keeps-same a _ refl) refl id body refl (ad, body, known, m, rw client refl) v)
            (λ m. v))
        (λ e. v)

  download_ad-Right : (id : ℕ) (a : Manager) → Right a → Right (download_ad codec o id a)
  unfolding download_ad
  download_ad-Right id a v = elim (Option-cases (find id a.map_ad)) [
    | inl e ↦ rw (e, download_found) v
    | inr (ad, e) ↦
        rw (e, download_found)
          (if_both Right (is_empty ad.download) _ _ (λ x. v)
            (λ x.
              if_both Right a.is_bar_server _ _
                (λ server. try_urls-Right id ad 0 ad.download a e server v)
                (λ client. download_from_server-Right id ad a e client v)))
  ]

  fetch_all-Right : (ids : List ℕ) (a : Manager) → Right a → Right (fetch_all codec o ids a)
  unfolding fetch_all
  fetch_all-Right [] a v = v
  fetch_all-Right (id ∷ ids) a v =
      fetch_all-Right ids _
        (if_both Right (is_cached id a) _ _ (λ e. v) (λ e. download_ad-Right id a v))

  drop_stale-Right : (ids : List ℕ) (a : Manager) → Right a → Right (drop_stale ids a)
  drop_stale-Right ids a v =
      IsVerified-mono codec o.hex_digest o.to_upper a _ (Keeps-same a _ refl) refl
        (λ id buf h. ground (arith, find-keep_keys (λ i. contains i ids) id a.buf_images)) v

  arm_download-Right : (b : Bool) (a : Manager) → Right a → Right (arm_download b a)
  arm_download-Right true a v =
      IsVerified-mono codec o.hex_digest o.to_upper a _ (Keeps-same a _ refl) refl (λ id buf h. h) v
  arm_download-Right false a v = v

  collect-images :
      (more ids : List ℕ) (a : Manager)
      → ((collect more ids a).1.buf_images ≡ a.buf_images)
        × ((collect more ids a).1.is_bar_server ≡ a.is_bar_server)
  unfolding collect touch
  collect-images [] ids a = (refl, refl)
  collect-images (id ∷ more) ids a = collect-images more _ (touch id a)

  collect-Right : (more ids : List ℕ) (a : Manager) → Right a → Right (collect more ids a).1
  collect-Right more ids a v =
      IsVerified-mono codec o.hex_digest o.to_upper a _ (collect-Keeps more ids a)
        (collect-images more ids a).1
        (λ id buf h. sym (ap (find id) (collect-images more ids a).0) ∙ h) v

  pub download_ads-IsVerified :
      (a : Manager)
      → IsVerified codec o.hex_digest o.to_upper a
      → IsVerified codec o.hex_digest o.to_upper (download_ads codec o a)
  unfolding download_ads download_needed
  download_ads-IsVerified a v =
      let (ids, b) = collect (policy_ids a.policy) [] a in
      if_both Right a.is_end_business a _ (λ e. v)
        (λ e. arm_download-Right _ _ (
          fetch_all-Right ids _
            (drop_stale-Right ids b (collect-Right (policy_ids a.policy) [] a v))))
