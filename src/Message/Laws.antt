-- ===== src/Message/Laws.antt =====
-- What is written is read back, as a merge into the message that is being read
-- (MergePartialFromCodedStream after SerializeWithCachedSizes).
use ad_manager.Base.{
  ℕ, suc, ◌+◌, ◌-◌, ◌^◌, ◌≤◌, ◌<◌, ◌≡◌, refl, sym, ap, ◌∙◌, inl, inr, Bool, true, some, [], ◌∷◌,
  ◌++◌, append-nil, append_assoc, arith, if◌then◌else◌, Bool-cases, length, length-append, is_empty,
  ℤ, pos, negsuc, is_zero,
}
use ad_manager.Wire.{Bytes}
use ad_manager.Message.Types.{Message, empty, IsInt64, IsInt32}
use ad_manager.Message.Runtime.{Runtime, IsRuntime}
use ad_manager.Message.Generated.{
  success, again, merge_from, int64_field, int32_field, string_field, serialize, on_tag, round,
  merge_partial, parse,
}
use ad_manager.Message.Sizes.{IsWritable}

-- A field that is written takes one round to read.
abbrev after : Bool → ℕ → ℕ
after absent f = if absent then f else suc f

abbrev fuel_for : Message → ℕ → ℕ
fuel_for m f = after (is_zero m.id) (
    after (is_empty m.method) (
      after (is_empty m.content) (after (is_zero m.return_code) (after (is_empty m.return_msg) f))))

fuel_for-add : (m : Message) (f : ℕ) → fuel_for m f ≡ fuel_for m 0 + f
fuel_for-add m f = ground arith

pub absent_number : (v : ℤ) → (if is_zero v then pos 0 else v) ≡ v
absent_number (pos n) = ground arith
absent_number (negsuc n) = refl

pub absent_bytes : (v : Bytes) → (if is_empty v then [] else v) ≡ v
absent_bytes [] = refl
absent_bytes (b ∷ v) = refl

merge_from-empty : (m : Message) → merge_from empty m ≡ m
unfolding merge_from
merge_from-empty m = λ i. record {
  id = absent_number m.id i;
  method = absent_bytes m.method i;
  content = absent_bytes m.content i;
  return_code = absent_number m.return_code i;
  return_msg = absent_bytes m.return_msg i;
}

module _ (r : Runtime) (laws : IsRuntime r) where
  open laws use {
    tag_size, read_tag-write, read_tag-end, read_int64-write, read_int32-write, read_string-write,
  }

  merge-again :
      (f : ℕ) (m m' : Message) (b rest : Bytes)
      → round r m b ≡ again m' rest
      → merge_partial r (suc f) m b ≡ merge_partial r f m' rest
  unfolding merge_partial
  merge-again f m m' b rest e = rw (e, merge_partial) refl

  present :
      (t : ℕ) (absent : Bool) (value : Bytes)
      → t < 128
      → after absent 0 ≤ length (if absent then [] else r.write_tag t ++ value)
  present t absent value h = ground (arith, length-append (r.write_tag t) value, tag_size t h)

  -- The tag is read, and the switch takes its case.
  round-tag :
      (m : Message) (t : ℕ) (value rest : Bytes)
      → 0 < t
      → t < 128
      → (at_end : Bool) × (round r m ((r.write_tag t ++ value) ++ rest)
          ≡ on_tag r t m at_end (value ++ rest))
  unfolding round
  round-tag m t value rest p q = (
    is_empty ((r.write_tag t ++ value) ++ rest),
    rw (append_assoc (r.write_tag t) value rest, read_tag-write t (value ++ rest) p (omega arith))
        refl,
  )

  merge-id :
      (f : ℕ) (m : Message) (v : ℤ) (rest : Bytes)
      → IsInt64 v
      → merge_partial r (after (is_zero v) f) m (int64_field r 8 v ++ rest)
        ≡ merge_partial r f (record m { id = if is_zero v then m.id else v }) rest
  merge-id f m v rest h = elim (Bool-cases (is_zero v)) [
    | inl e ↦ rw e refl
    | inr e ↦ rw e (
        merge-again f m (record m { id = v }) _ rest
          ((round-tag m 8 (r.write_int64 v) rest (omega arith) (omega arith)).1
            ∙ rw (read_int64-write v rest h) refl))
  ]

  merge-return_code :
      (f : ℕ) (m : Message) (v : ℤ) (rest : Bytes)
      → IsInt32 v
      → merge_partial r (after (is_zero v) f) m (int32_field r 32 v ++ rest)
        ≡ merge_partial r f (record m { return_code = if is_zero v then m.return_code else v }) rest
  merge-return_code f m v rest h = elim (Bool-cases (is_zero v)) [
    | inl e ↦ rw e refl
    | inr e ↦ rw e (
        merge-again f m (record m { return_code = v }) _ rest
          ((round-tag m 32 (r.write_int32 v) rest (omega arith) (omega arith)).1
            ∙ rw (read_int32-write v rest h) refl))
  ]

  merge-method :
      (f : ℕ) (m : Message) (v rest : Bytes)
      → r.verify_utf8 v ≡ true
      → length v < 2 ^ 31
      → merge_partial r (after (is_empty v) f) m (string_field r 18 v ++ rest)
        ≡ merge_partial r f (record m { method = if is_empty v then m.method else v }) rest
  merge-method f m v rest u h = elim (Bool-cases (is_empty v)) [
    | inl e ↦ rw e refl
    | inr e ↦ rw e (
        merge-again f m (record m { method = v }) _ rest
          ((round-tag m 18 (r.write_string v) rest (omega arith) (omega arith)).1
            ∙ rw (read_string-write v rest h) (rw u refl)))
  ]

  merge-content :
      (f : ℕ) (m : Message) (v rest : Bytes)
      → length v < 2 ^ 31
      → merge_partial r (after (is_empty v) f) m (string_field r 26 v ++ rest)
        ≡ merge_partial r f (record m { content = if is_empty v then m.content else v }) rest
  merge-content f m v rest h = elim (Bool-cases (is_empty v)) [
    | inl e ↦ rw e refl
    | inr e ↦ rw e (
        merge-again f m (record m { content = v }) _ rest
          ((round-tag m 26 (r.write_string v) rest (omega arith) (omega arith)).1
            ∙ rw (read_string-write v rest h) refl))
  ]

  merge-return_msg :
      (f : ℕ) (m : Message) (v rest : Bytes)
      → r.verify_utf8 v ≡ true
      → length v < 2 ^ 31
      → merge_partial r (after (is_empty v) f) m (string_field r 42 v ++ rest)
        ≡ merge_partial r f (record m { return_msg = if is_empty v then m.return_msg else v }) rest
  merge-return_msg f m v rest u h = elim (Bool-cases (is_empty v)) [
    | inl e ↦ rw e refl
    | inr e ↦ rw e (
        merge-again f m (record m { return_msg = v }) _ rest
          ((round-tag m 42 (r.write_string v) rest (omega arith) (omega arith)).1
            ∙ rw (read_string-write v rest h) (rw u refl)))
  ]

  -- Reading a message that was written merges it into the message at hand.
  merge-serialize :
      (f : ℕ) (a m : Message) (rest : Bytes)
      → IsWritable r m
      → merge_partial r (fuel_for m f) a (serialize r m ++ rest)
        ≡ merge_partial r f (merge_from a m) rest
  unfolding serialize merge_from
  merge-serialize f a m rest w =
      rw
        (
          append_assoc (int64_field r 8 m.id) _ rest,
          append_assoc (string_field r 18 m.method) _ rest,
          append_assoc (string_field r 26 m.content) _ rest,
          append_assoc (int32_field r 32 m.return_code) _ rest,
        )
        (merge-id _ a m.id _ w.id_range
          ∙ merge-method _ _ m.method _ w.method_utf8 w.method_size
          ∙ merge-content _ _ m.content _ w.content_size
          ∙ merge-return_code _ _ m.return_code _ w.code_range
          ∙ merge-return_msg f _ m.return_msg rest w.return_msg_utf8 w.return_msg_size)

  -- At the end of the input the loop stops.
  merge-end : (f : ℕ) (m : Message) → merge_partial r (suc f) m [] ≡ success m true
  unfolding merge_partial round
  merge-end f m = rw (merge_partial, read_tag-end) refl

  merge-last :
      (f : ℕ) (a m : Message)
      → IsWritable r m
      → merge_partial r (fuel_for m (suc f)) a (serialize r m) ≡ success (merge_from a m) true
  merge-last f a m w =
      ap (merge_partial r (fuel_for m (suc f)) a) (sym (append-nil (serialize r m)))
      ∙ merge-serialize (suc f) a m [] w
      ∙ merge-end f (merge_from a m)

  fuel_for-le : (m : Message) → fuel_for m 0 ≤ length (serialize r m)
  unfolding serialize
  fuel_for-le m =
      rw
        (
          length-append (int64_field r 8 m.id) _,
          length-append (string_field r 18 m.method) _,
          length-append (string_field r 26 m.content) _,
          length-append (int32_field r 32 m.return_code) (string_field r 42 m.return_msg),
        )
        (ground (
          arith,
          present 8 (is_zero m.id) (r.write_int64 m.id),
          present 18 (is_empty m.method) (r.write_string m.method),
          present 26 (is_empty m.content) (r.write_string m.content),
          present 32 (is_zero m.return_code) (r.write_int32 m.return_code),
          present 42 (is_empty m.return_msg) (r.write_string m.return_msg),
        ))

  -- Two writable messages that are written one behind the other read as the second merged into the
  -- first, for a runtime with its documented laws.
  pub parse-serialize_append :
      (a b : Message)
      → IsWritable r a
      → IsWritable r b
      → parse r (serialize r a ++ serialize r b) ≡ some (merge_from a b)
  unfolding parse
  parse-serialize_append a b wa wb =
      rw
        (
          enough,
          merge-serialize (fuel_for b (suc spare)) empty a (serialize r b) wa,
          merge_from-empty a,
          merge-last spare a b wb,
        )
        refl
    where
      size : ℕ
      size = length (serialize r a ++ serialize r b)

      spare : ℕ
      spare = size - fuel_for a 0 - fuel_for b 0

      enough : suc size ≡ fuel_for a (fuel_for b (suc spare))
      enough = omega (
        arith,
        length-append (serialize r a) (serialize r b),
        fuel_for-le a,
        fuel_for-le b,
        fuel_for-add a (fuel_for b (suc spare)),
        fuel_for-add b (suc spare),
      )

  -- A writable message that is written reads as itself, for a runtime with its documented laws.
  pub parse-serialize : (m : Message) → IsWritable r m → parse r (serialize r m) ≡ some m
  unfolding parse
  parse-serialize m w = rw (enough, merge-last spare empty m w, merge_from-empty m) refl
    where
      spare : ℕ
      spare = length (serialize r m) - fuel_for m 0

      enough : suc (length (serialize r m)) ≡ fuel_for m (suc spare)
      enough = omega (arith, fuel_for-le m, fuel_for-add m (suc spare))
