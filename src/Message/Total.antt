-- ===== src/Message/Total.antt =====
-- Parsing ends: each round takes at least the byte of a tag, so the model's fuel never runs out
-- (MergePartialFromCodedStream).
use ad_manager.Base.{
  ℕ, zero, suc, ◌≤◌, ◌<◌, ◌≡◌, refl, sym, ap, ◌∙◌, subst, ◌≢◌, Bool, true, false, ◌||◌, Option,
  none, some, arith, ℕ_discrete, ◌==◌, if◌then◌else◌, length, is_empty, ℤ,
}
use ad_manager.Wire.{Bytes}
use ad_manager.Message.Types.{Message}
use ad_manager.Message.Runtime.{Runtime, IsRuntime}
use ad_manager.Message.Generated.{
  out_of_fuel, Round, again, stop, fail, on_tag, on_id, on_method, on_content, on_return_code,
  on_return_msg, on_skip, is_end_group, round, merge_partial,
}

-- A round that goes on has left at most `n` bytes.
abbrev LeavesAtMost : ℕ → Round → Type 0
LeavesAtMost n (again m rest) = length rest ≤ n
LeavesAtMost n (stop m at_end) = Unit {0}
LeavesAtMost n fail = Unit {0}

LeavesAtMost-if :
    (n : ℕ) (b : Bool) (p q : Round)
    → LeavesAtMost n p
    → LeavesAtMost n q
    → LeavesAtMost n (if b then p else q)
LeavesAtMost-if n true p q hp hq = hp
LeavesAtMost-if n false p q hp hq = hq

abbrev ReadsFrom {ℓ} : {A : Type ℓ} → ℕ → Option (A × Bytes) → Type ℓ
ReadsFrom {A} n o = (v : A) (rest : Bytes) → o ≡ some (v, rest) → length rest ≤ n

module _ (r : Runtime) (laws : IsRuntime r) where
  open laws use {
    read_tag_shrinks, read_int64_shrinks, read_int32_shrinks, read_string_shrinks, skip_shrinks,
  }

  id_leaves :
      (m : Message) (n : ℕ) (o : Option (ℤ × Bytes)) → ReadsFrom n o → LeavesAtMost n (on_id r m o)
  id_leaves m n none h = tt
  id_leaves m n (some (v, rest)) h = h v rest refl

  code_leaves :
      (m : Message) (n : ℕ) (o : Option (ℤ × Bytes))
      → ReadsFrom n o
      → LeavesAtMost n (on_return_code r m o)
  code_leaves m n none h = tt
  code_leaves m n (some (v, rest)) h = h v rest refl

  content_leaves :
      (m : Message) (n : ℕ) (o : Option (Bytes × Bytes))
      → ReadsFrom n o
      → LeavesAtMost n (on_content r m o)
  content_leaves m n none h = tt
  content_leaves m n (some (v, rest)) h = h v rest refl

  method_leaves :
      (m : Message) (n : ℕ) (o : Option (Bytes × Bytes))
      → ReadsFrom n o
      → LeavesAtMost n (on_method r m o)
  method_leaves m n none h = tt
  method_leaves m n (some (v, rest)) h = LeavesAtMost-if n (r.verify_utf8 v) _ _ (h v rest refl) tt

  msg_leaves :
      (m : Message) (n : ℕ) (o : Option (Bytes × Bytes))
      → ReadsFrom n o
      → LeavesAtMost n (on_return_msg r m o)
  msg_leaves m n none h = tt
  msg_leaves m n (some (v, rest)) h = LeavesAtMost-if n (r.verify_utf8 v) _ _ (h v rest refl) tt

  skip_leaves :
      (m : Message) (n : ℕ) (o : Option Bytes)
      → ((rest : Bytes) → o ≡ some rest → length rest ≤ n)
      → LeavesAtMost n (on_skip r m o)
  skip_leaves m n none h = tt
  skip_leaves m n (some rest) h = h rest refl

  read_int32_leaves : (b : Bytes) → ReadsFrom (length b) (r.read_int32 b)
  read_int32_leaves b v rest e = omega (arith, read_int32_shrinks b rest v e)

  tag_leaves :
      (t : ℕ) (m : Message) (e : Bool) (b : Bytes) → LeavesAtMost (length b) (on_tag r t m e b)
  tag_leaves t m e b =
      LeavesAtMost-if n (t == 8) _ _ (id_leaves m n _ (λ v rest. read_int64_shrinks b rest v)) (
        LeavesAtMost-if n (t == 18) _ _
          (method_leaves m n _ (λ v rest. read_string_shrinks b rest v))
          (LeavesAtMost-if n (t == 26) _ _
            (content_leaves m n _ (λ v rest. read_string_shrinks b rest v))
            (LeavesAtMost-if n (t == 32) _ _ (code_leaves m n _ (read_int32_leaves b)) (
              LeavesAtMost-if n (t == 42) _ _
                (msg_leaves m n _ (λ v rest. read_string_shrinks b rest v))
                (LeavesAtMost-if n (t == 0 || is_end_group t) (stop m e) _ (tt {0})
                  (skip_leaves m n _ (skip_shrinks t b)))))))
    where
      n : ℕ
      n = length b

  -- With tag 0 the loop stops; any other tag has taken a byte.
  round_leaves :
      (m m' : Message) (b rest : Bytes) → round r m b ≡ again m' rest → length rest < length b
  unfolding round
  round_leaves m m' b rest e = elim (ℕ_discrete (r.read_tag b).0 0) [
    | yes zero_tag ↦
        let stopped : stop m (is_empty b) ≡ again m' rest =
          sym (ap (λ t. on_tag r t m (is_empty b) (r.read_tag b).1) zero_tag) ∙ e in
        cc stopped
    | no other ↦
        let left : length rest ≤ length (r.read_tag b).1 =
          subst (LeavesAtMost (length (r.read_tag b).1)) e
            (tag_leaves (r.read_tag b).0 m (is_empty b) (r.read_tag b).1) in
        omega (arith, read_tag_shrinks b other)
  ]

  -- With more fuel than there are bytes, the model of the reading loop does not run out of fuel,
  -- for a runtime with its documented laws.
  pub merge_partial_total :
      (fuel : ℕ) (m : Message) (b : Bytes)
      → length b < fuel
      → merge_partial r fuel m b ≢ out_of_fuel
  unfolding merge_partial
  merge_partial_total zero m b h = absurd (omega arith)
  merge_partial_total (suc fuel) m b h = go (merge_partial_total fuel) (round r m b) refl
    where
      go :
          ((m' : Message) (rest : Bytes)
            → length rest < fuel
            → merge_partial r fuel m' rest ≢ out_of_fuel)
          → (o : Round) → round r m b ≡ o
          → merge_partial r (suc fuel) m b ≢ out_of_fuel
      go ih (again m' rest) e =
          let shorter = round_leaves m m' b rest e in
          rw (e, merge_partial) (ih m' rest (omega arith))
      go ih (stop m' at_end) e = rw (e, merge_partial) (λ p. cc)
      go ih fail e = rw (e, merge_partial) (λ p. cc)
