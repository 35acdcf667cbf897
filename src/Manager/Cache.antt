-- ===== src/Manager/Cache.antt =====
-- Which files are kept after a download of them (AdManager.cpp, downloadAds).
use ad_manager.Base.{
  ℕ, ◌+◌, ◌≡◌, refl, sym, ◌∙◌, inl, inr, Bool, true, false, ◌||◌, some, List, [], ◌∷◌, arith,
  ℕ_discrete, ◌==◌, if◌then◌else◌, Option-cases, if_both, is_empty, is_zero, find, insert,
  find-insert, find-keep_keys,
}
use ad_manager.Wire.{Bytes}
use ad_manager.Message.Types.{Codec}
use ad_manager.Manager.Types.{Manager, Ad, Outside}
use ad_manager.Manager.Download.{
  touch, collect, fetch_all, try_urls, download_ad, download_from_server, download_needed,
  download_ads, contains, is_cached, any_missing, arm_download, drop_stale, policy_ids, store_or,
  accept, store_client, digest_matches, download_found, retry_after, file_request, has_key,
}
use ad_manager.Manager.Needed.{is_needed, contains-collect}

or_swap : (c x y i : Bool) → (c || x) ≡ true → (x ≡ true → (i || y) ≡ true) → ((i || c) || y) ≡ true
or_swap true x y true h k = refl
or_swap true x y false h k = refl
or_swap false x y true h k = refl
or_swap false x y false h k = k h

-- What an attempt to get one file does to the files.
data Gained (id : ℕ) (old : List (ℕ × Bytes)) : List (ℕ × Bytes) → Type 0 where
  nothing_new : Gained id old old
  one_new : (x : Bytes) → Gained id old (insert id x old)

module _ (codec : Codec) (o : Outside) where
  try_urls-Gained :
      (id : ℕ) (ad : Ad) (n : ℕ) (urls : List Bytes) (a : Manager)
      → Gained id a.buf_images (try_urls codec o id ad n urls a).buf_images
  unfolding try_urls
  try_urls-Gained id ad n [] a = nothing_new
  try_urls-Gained id ad n (url ∷ urls) a = elim (Option-cases (accept o ad (o.http_get id n url))) [
    | inl e ↦ rw (e, store_or) (try_urls-Gained id ad (n + 1) urls a)
    | inr (body, e) ↦ rw (e, store_or) (one_new _)
  ]

  download_from_server-Gained :
      (id : ℕ) (ad : Ad) (a : Manager)
      → Gained id a.buf_images (download_from_server o id ad a).buf_images
  unfolding download_from_server
  download_from_server-Gained id ad a =
      let P = λ (b : Manager). Gained id a.buf_images b.buf_images in
      let body = (o.peer (file_request id)).content in
      if_both P (is_zero (o.peer (file_request id)).return_code) _ _
        (λ e.
          if_both P (digest_matches o ad body) (store_client id body a) a (λ m. one_new body)
            (λ m. nothing_new))
        (λ e. nothing_new)

  download_ad-Gained :
      (id : ℕ) (a : Manager) → Gained id a.buf_images (download_ad codec o id a).buf_images
  unfolding download_ad
  download_ad-Gained id a = elim (Option-cases (find id a.map_ad)) [
    | inl e ↦ rw (e, download_found) nothing_new
    | inr (ad, e) ↦
        let P = λ (b : Manager). Gained id a.buf_images b.buf_images in
        rw (e, download_found)
          (if_both P (is_empty ad.download) _ _ (λ x. nothing_new)
            (λ x.
              if_both P a.is_bar_server _ _ (λ y. try_urls-Gained id ad 0 ad.download a)
                (λ y. download_from_server-Gained id ad a)))
  ]

  Gained-keeps :
      (id : ℕ) (old new : List (ℕ × Bytes)) (j : ℕ) (buf : Bytes)
      → Gained id old new
      → find j old ≡ some buf
      → find j new ≡ some buf
  Gained-keeps id old _ j buf nothing_new h = h
  Gained-keeps id old _ j buf (one_new x) h = ground (arith, find-insert id j x old)

  Gained-origin :
      (id : ℕ) (old new : List (ℕ × Bytes)) (j : ℕ)
      → Gained id old new
      → has_key (find j new) ≡ true
      → (id == j || has_key (find j old)) ≡ true
  Gained-origin id old _ j nothing_new h = ground arith
  Gained-origin id old _ j (one_new x) h = elim (Option-cases (find j old)) [
    | inl e ↦ ground (arith, find-insert id j x old)
    | inr (y, e) ↦ ground (arith, find-insert id j x old)
  ]

  fetch_all-keeps :
      (ids : List ℕ) (a : Manager) (j : ℕ) (buf : Bytes)
      → find j a.buf_images ≡ some buf
      → find j (fetch_all codec o ids a).buf_images ≡ some buf
  unfolding fetch_all
  fetch_all-keeps [] a j buf h = h
  fetch_all-keeps (id ∷ ids) a j buf h = fetch_all-keeps ids _ j buf (
      if_both (λ b. find j b.buf_images ≡ some buf) (is_cached id a) a _ (λ e. h)
        (λ e. Gained-keeps id a.buf_images _ j buf (download_ad-Gained id a) h))

  fetch_all-origin :
      (ids : List ℕ) (a : Manager) (j : ℕ)
      → is_cached j (fetch_all codec o ids a) ≡ true
      → (contains j ids || is_cached j a) ≡ true
  unfolding fetch_all contains
  fetch_all-origin [] a j h = h
  fetch_all-origin (id ∷ ids) a j h =
      let b = if is_cached id a then a else download_ad codec o id a in
      or_swap (contains j ids) (is_cached j b) (is_cached j a) (id == j)
        (fetch_all-origin ids b j h)
        (if_both (λ c. is_cached j c ≡ true → (id == j || is_cached j a) ≡ true) (is_cached id a) a
          _ (λ e k. ground arith)
          (λ e k. Gained-origin id a.buf_images _ j (download_ad-Gained id a) k))

  any_missing_sound :
      (ids : List ℕ) (a : Manager) (j : ℕ)
      → contains j ids ≡ true
      → is_cached j a ≡ false
      → any_missing ids a ≡ true
  unfolding any_missing contains
  any_missing_sound [] a j h k = absurd (ground arith)
  any_missing_sound (id ∷ ids) a j h k = elim (ℕ_discrete id j) [
    | yes e ↦ rw e (ground arith)
    | no ne ↦ ground (arith, any_missing_sound ids a j)
  ]

  arm_download-images : (b : Bool) (a : Manager) → (arm_download b a).buf_images ≡ a.buf_images
  arm_download-images true a = refl
  arm_download-images false a = refl

  contains-needed :
      (a : Manager) (j : ℕ) → contains j (collect (policy_ids a.policy) [] a).0 ≡ is_needed j a
  unfolding contains
  contains-needed a j = contains-collect (policy_ids a.policy) [] a j

  collect-images :
      (more ids : List ℕ) (a : Manager) → (collect more ids a).1.buf_images ≡ a.buf_images
  unfolding collect touch
  collect-images [] ids a = refl
  collect-images (id ∷ more) ids a = collect-images more _ (touch id a)

  needed-origin :
      (ids : List ℕ) (a : Manager) (j : ℕ)
      → is_cached j (download_needed codec o ids a) ≡ true
      → contains j ids ≡ true
  unfolding download_needed
  needed-origin ids a j h =
      let b = drop_stale ids a in
      let c = fetch_all codec o ids b in
      let e = fetch_all-origin ids b j (rw (sym (arm_download-images (any_missing ids c) c)) h) in
      ground (arith, find-keep_keys (λ i. contains i ids) j a.buf_images)

  needed-keeps :
      (ids : List ℕ) (a : Manager) (j : ℕ) (buf : Bytes)
      → contains j ids ≡ true
      → find j a.buf_images ≡ some buf
      → find j (download_needed codec o ids a).buf_images ≡ some buf
  unfolding download_needed
  needed-keeps ids a j buf need h =
      let b = drop_stale ids a in
      let c = fetch_all codec o ids b in
      rw (arm_download-images (any_missing ids c) c) (
        fetch_all-keeps ids b j buf
          (ground (arith, find-keep_keys (λ i. contains i ids) j a.buf_images)))

  needed-retried :
      (ids : List ℕ) (a : Manager) (j : ℕ)
      → contains j ids ≡ true
      → is_cached j (download_needed codec o ids a) ≡ false
      → (download_needed codec o ids a).timer_download ≡ some retry_after
  unfolding download_needed
  needed-retried ids a j need h =
      let c = fetch_all codec o ids (drop_stale ids a) in
      rw
        (
          any_missing_sound ids c j need (rw (sym (arm_download-images (any_missing ids c) c)) h),
          arm_download,
        )
        refl

  running :
      (a : Manager)
      → a.is_end_business ≡ false
      → download_ads codec o a
        ≡ download_needed codec o
            (collect (policy_ids a.policy) [] a).0
            (collect (policy_ids a.policy) [] a).1
  unfolding download_ads
  running a runs =
      let (ids, b) = collect (policy_ids a.policy) [] a in
      if_both (λ x. x ≡ download_needed codec o ids b) a.is_end_business a _ (λ e. ground arith)
        (λ e. refl)

  -- While the business runs, each file that is kept after a download is one of an advertisement of the policy
  -- that names an address: any other file that was there is gone.
  pub kept-needed :
      (a : Manager) (j : ℕ)
      → a.is_end_business ≡ false
      → is_cached j (download_ads codec o a) ≡ true
      → is_needed j a ≡ true
  kept-needed a j runs h =
      let (ids, b) = collect (policy_ids a.policy) [] a in
      sym (contains-needed a j) ∙ needed-origin ids b j (rw (sym (running a runs)) h)

  -- While the business runs, a file that is still needed is kept as it was by a download.
  pub needed_stays :
      (a : Manager) (j : ℕ) (buf : Bytes)
      → a.is_end_business ≡ false
      → is_needed j a ≡ true
      → find j a.buf_images ≡ some buf
      → find j (download_ads codec o a).buf_images ≡ some buf
  needed_stays a j buf runs need h =
      let (ids, b) = collect (policy_ids a.policy) [] a in
      rw (running a runs) (
        needed-keeps ids b j buf (contains-needed a j ∙ need)
          (rw (collect-images (policy_ids a.policy) [] a) h))

  -- While the business runs, when a file of the policy whose advertisement names an address is
  -- missing after a download, the timer is set to try again in five minutes.
  pub missing_retried :
      (a : Manager) (j : ℕ)
      → a.is_end_business ≡ false
      → is_needed j a ≡ true
      → is_cached j (download_ads codec o a) ≡ false
      → (download_ads codec o a).timer_download ≡ some retry_after
  missing_retried a j runs need h =
      let (ids, b) = collect (policy_ids a.policy) [] a in
      rw (running a runs)
        (needed-retried ids b j (contains-needed a j ∙ need) (rw (sym (running a runs)) h))
