-- ===== src/Proto/Total.antt =====
-- Parsing ends: each round of the loop takes at least the byte of a tag, so the model's fuel never
-- runs out, and neither does that of the loop over packed numbers (ad/AdPlayPolicy.pb.cc).
use ad_manager.Base.{
  ℕ, zero, suc, ◌≤◌, ◌<◌, ◌≡◌, refl, sym, ap, ◌∙◌, subst, ◌≢◌, Bool, true, false, ◌||◌, Option,
  none, some, [], ◌∷◌, arith, ℕ_discrete, ◌==◌, if◌then◌else◌, length, is_empty, ℤ,
}
use ad_manager.Wire.{Bytes}
use ad_manager.Message.Runtime.{Runtime, IsRuntime}
use ad_manager.Message.Generated.{is_end_group}
use ad_manager.Proto.Loop.{
  Case, taken, untaken, Turn, goes_on, ends, breaks, starved, on_case, handle_unusual, skipped,
  turn, merge_loop,
}
use ad_manager.Proto.Fields.{cons_to, packed_values}
use ad_manager.Proto.Leaves.{Leaves, Leaving}

abbrev TurnLeaves : {M : Type 0} → ℕ → Turn M → Type 0
TurnLeaves n (goes_on m rest) = length rest ≤ n
TurnLeaves n (ends m at_end) = Unit {0}
TurnLeaves n breaks = Unit {0}

module _ (r : Runtime) (laws : IsRuntime r) where
  open laws use {read_tag_shrinks, read_int32_shrinks, skip_shrinks}

  module _ {M : Type 0} (switch : ℕ → M → Bytes → Case M)
      (all_leave : (t : ℕ) (m : M) (b : Bytes) → Leaving (length b) (switch t m b)) where
    unusual-TurnLeaves :
        (t : ℕ) (m : M) (e : Bool) (b : Bytes)
        → TurnLeaves (length b) (handle_unusual r switch t m e b)
    unusual-TurnLeaves t m e b =
        either (t == 0 || is_end_group t) (skipping (r.skip_field t b) (skip_shrinks t b))
      where
        skipping :
            (o : Option Bytes)
            → ((rest : Bytes) → o ≡ some rest → length rest ≤ length b)
            → TurnLeaves (length b) (skipped r switch m o)
        skipping none h = tt
        skipping (some rest) h = h rest refl

        either :
            (c : Bool)
            → TurnLeaves (length b) (skipped r switch m (r.skip_field t b))
            → TurnLeaves (length b) (if c then ends m e else skipped r switch m (r.skip_field t b))
        either true h = tt
        either false h = h

    case-TurnLeaves :
        (t : ℕ) (m : M) (e : Bool) (b : Bytes) (c : Case M)
        → Leaves (length b) c
        → TurnLeaves (length b) (on_case r switch t m e b c)
    case-TurnLeaves t m e b (taken none) h = tt
    case-TurnLeaves t m e b (taken (some (n, left))) h = h
    case-TurnLeaves t m e b untaken h = unusual-TurnLeaves t m e b

    turn_shrinks :
        ((m : M) (b : Bytes) → switch 0 m b ≡ untaken)
        → (m n : M) (b rest : Bytes) → turn r switch m b ≡ goes_on n rest
        → length rest < length b
    unfolding turn
    turn_shrinks no_zero m n b rest e = elim (ℕ_discrete (r.read_tag b).0 0) [
      | yes zero_tag ↦
          let left = (r.read_tag b).1 in
          let stopped : ends m (is_empty b) ≡ goes_on n rest =
            ap (on_case r switch 0 m (is_empty b) left) (sym (no_zero m left))
            ∙ ap (λ (t : ℕ). on_case r switch t m (is_empty b) left (switch t m left))
                (sym zero_tag)
            ∙ e in
          cc stopped
      | no other ↦
          let left : length rest ≤ length (r.read_tag b).1 =
            subst (TurnLeaves (length (r.read_tag b).1)) e (
              case-TurnLeaves (r.read_tag b).0 m (is_empty b) (r.read_tag b).1 _
                (all_leave (r.read_tag b).0 m (r.read_tag b).1).leaves) in
          omega (arith, read_tag_shrinks b other)
    ]

    -- With more fuel than there are bytes, the loop does not run out of fuel.
    pub merge_loop-ends :
        ((m : M) (b : Bytes) → switch 0 m b ≡ untaken)
        → (fuel : ℕ) (m : M) (b : Bytes) → length b < fuel
        → merge_loop r switch fuel m b ≢ starved
    unfolding merge_loop
    merge_loop-ends no_zero zero m b h = absurd (omega arith)
    merge_loop-ends no_zero (suc fuel) m b h =
        go (merge_loop-ends no_zero fuel) (turn r switch m b) refl
      where
        go :
            ((n : M) (rest : Bytes)
              → length rest < fuel
              → merge_loop r switch fuel n rest ≢ starved)
            → (o : Turn M) → turn r switch m b ≡ o
            → merge_loop r switch (suc fuel) m b ≢ starved
        go ih (goes_on n rest) e =
            let shorter = turn_shrinks no_zero m n b rest e in
            rw (e, merge_loop) (ih n rest (omega arith))
        go ih (ends n at_end) e = rw (e, merge_loop) (λ p. cc)
        go ih breaks e = rw (e, merge_loop) (λ p. cc)

  packed_values_same :
      (f g : ℕ) (b : Bytes)
      → length b ≤ f
      → length b ≤ g
      → packed_values r f b ≡ packed_values r g b
  unfolding packed_values
  packed_values_same zero zero b p q = refl
  packed_values_same zero (suc g) [] p q = refl
  packed_values_same (suc f) zero [] p q = refl
  packed_values_same (suc f) (suc g) [] p q = refl
  packed_values_same zero (suc g) (x ∷ b) p q = absurd (omega arith)
  packed_values_same (suc f) zero (x ∷ b) p q = absurd (omega arith)
  packed_values_same (suc f) (suc g) (x ∷ b) p q =
      go (packed_values_same f g) (r.read_int32 (x ∷ b)) refl
    where
      go :
          ((c : Bytes) → length c ≤ f → length c ≤ g → packed_values r f c ≡ packed_values r g c)
          → (o : Option (ℤ × Bytes)) → r.read_int32 (x ∷ b) ≡ o
          → packed_values r (suc f) (x ∷ b) ≡ packed_values r (suc g) (x ∷ b)
      go ih none e = rw (e, packed_values) refl
      go ih (some (v, rest)) e =
          let shorter = read_int32_shrinks (x ∷ b) rest v e in
          rw (e, packed_values) (ap (cons_to v) (ih rest (omega arith) (omega arith)))

  -- Every number takes a byte, so more fuel than the bytes of the block changes nothing.
  packed_values-enough :
      (f : ℕ) (b : Bytes) → length b ≤ f → packed_values r f b ≡ packed_values r (length b) b
  packed_values-enough f b h = packed_values_same f (length b) b h (omega arith)
