-- ===== src/Manager/Needed.antt =====
-- Which advertisements a download is about (AdManager.cpp, downloadAds, its first loop).
use ad_manager.Base.{
  ℕ, ◌≡◌, refl, ◌∙◌, inl, inr, Bool, not, ◌&&◌, ◌||◌, List, [], ◌∷◌, arith, ℕ_discrete, ◌==◌,
  if◌then◌else◌, Option-cases, is_empty, find, find-insert,
}
use ad_manager.Manager.Types.{Manager, empty_ad}
use ad_manager.Manager.Download.{touch, ad_at, collect, set_insert, contains, policy_ids}

contains-set_insert :
    (k j : ℕ) (ids : List ℕ) → contains j (set_insert k ids) ≡ ((k == j) || contains j ids)
unfolding contains set_insert
contains-set_insert k j [] = refl
contains-set_insert k j (i ∷ ids) = ground (arith, contains-set_insert k j ids)

-- The advertisement of this number is in the policy and has a file.
abbrev pub is_needed : ℕ → Manager → Bool
is_needed id a = contains id (policy_ids a.policy) && not (is_empty (ad_at id a).download)

touch-ad_at : (id j : ℕ) (a : Manager) → ad_at j (touch id a) ≡ ad_at j a
unfolding touch
touch-ad_at id j a = elim (Option-cases (find j a.map_ad)) [
  | inl e ↦ ground (arith, find-insert id j empty_ad a.map_ad)
  | inr (ad, e) ↦ ground (arith, find-insert id j empty_ad a.map_ad)
]

-- One number put into the set, if the test says so.
contains-put :
    (f : ℕ → Bool) (id j : ℕ) (m : Bool) (ids : List ℕ)
    → (contains j (if f id then ids else set_insert id ids) || (m && not (f j)))
      ≡ (contains j ids || ((id == j || m) && not (f j)))
contains-put f id j m ids = elim (ℕ_discrete id j) [
  | yes e ↦ rw e (ground (arith, contains-set_insert j j ids))
  | no ne ↦ ground (arith, contains-set_insert id j ids)
]

pub contains-collect :
    (more ids : List ℕ) (a : Manager) (j : ℕ)
    → contains j (collect more ids a).0
      ≡ (contains j ids || (contains j more && not (is_empty (ad_at j a).download)))
unfolding collect contains
contains-collect [] ids a j = ground arith
contains-collect (id ∷ more) ids a j =
    contains-collect more _ (touch id a) j
    ∙ (rw (touch-ad_at id j a) refl
        ∙ contains-put (λ i. is_empty (ad_at i a).download) id j (contains j more) ids)
