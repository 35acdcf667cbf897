-- ===== src/Base/Assoc.antt =====
-- Maps with numbers for keys, as association lists: std::unordered_map and its operations.
use Prim.Native.Nat.{ℕ}
use mathlib.Core.Path.{◌≡◌, refl}
use mathlib.Core.Bool.{Bool}
use mathlib.Core.List.{List, [], ◌∷◌}
use mathlib.Core.Option.{Option, none, some}
use native.Mathlib.Omega.{arith}
use ad_manager.Base.Tests.{◌==◌, if◌then◌else◌}

module _ {ℓ} {V : Type ℓ} where
  unfoldable pub find : ℕ → List (ℕ × V) → Option V
  find k [] = none
  find k ((j, v) ∷ m) = if j == k then some v else find k m

  -- `insert` keeps the value of a key that is there.
  unfoldable pub insert : ℕ → V → List (ℕ × V) → List (ℕ × V)
  insert k v [] = (k, v) ∷ []
  insert k v ((j, w) ∷ m) = if j == k then (j, w) ∷ m else (j, w) ∷ insert k v m

  -- The loop that erases each entry whose key fails the test.
  unfoldable pub keep_keys : (ℕ → Bool) → List (ℕ × V) → List (ℕ × V)
  keep_keys p [] = []
  keep_keys p ((j, v) ∷ m) = if p j then (j, v) ∷ keep_keys p m else keep_keys p m

  abbrev pub or_else : Option V → V → Option V
  or_else none d = some d
  or_else (some v) d = some v

  pub find-insert :
      (k j : ℕ) (v : V) (m : List (ℕ × V))
      → find j (insert k v m) ≡ (if k == j then or_else (find j m) v else find j m)
  unfolding find insert
  find-insert k j v [] = refl
  find-insert k j v ((i, w) ∷ m) = ground (arith, find-insert k j v m)

  pub find-keep_keys :
      (p : ℕ → Bool) (j : ℕ) (m : List (ℕ × V))
      → find j (keep_keys p m) ≡ (if p j then find j m else none)
  unfolding find keep_keys
  find-keep_keys p j [] = ground arith
  find-keep_keys p j ((i, w) ∷ m) = ground (arith, find-keep_keys p j m)
