-- ===== src/Proto/Sizes.antt =====
-- How many bytes a field of each kind takes, against what ByteSizeLong adds for it
-- (ad/AdPlayPolicy.pb.cc).
use ad_manager.Base.{
  ℕ, ◌+◌, ◌*◌, ◌^◌, ◌<◌, ◌≡◌, refl, ap, ◌∙◌, Bool, false, List, [], ◌∷◌, ◌++◌, arith, ◌==◌, length,
  length-append, All, All-map, ℤ, pos,
}
use ad_manager.Wire.{Bytes}
use ad_manager.Message.Types.{IsInt32}
use ad_manager.Message.Runtime.{Runtime, IsRuntime}
use ad_manager.Message.Generated.{int32_field, string_field}
use ad_manager.Proto.Fields.{
  bool_field, repeated_field, packed_field, int32s, int32_bytes, bool_bytes, string_bytes, sizes,
  texts_bytes, messages_bytes, packed_bytes, length_delimited_size,
}

-- The bytes have that length.
pub record Takes (b : Bytes) (n : ℕ) : Type 0 where
  pub size : length b ≡ n

infixr 20 ◌next◌
pub ◌next◌ : {b c : Bytes} {m n : ℕ} → Takes b m → Takes c n → Takes (b ++ c) (m + n)
◌next◌ {b} {c} p q = record { size = omega (arith, length-append b c, p.size, q.size) }

module _ (r : Runtime) (laws : IsRuntime r) where
  open laws use {int32_takes, bool_length, int32_length, string_length, string_size_parts}

  length-int32s : (vs : List ℤ) → All IsInt32 vs → length (int32s r vs) ≡ sizes r r.int32_size vs
  length-int32s [] nothing = refl
  length-int32s (v ∷ vs) (one, more) = omega (
    arith,
    length-append (r.write_int32 v) (int32s r vs),
    int32_length v one,
    length-int32s vs more,
  )

  module _ (t n : ℕ) (tag : length (r.write_tag t) ≡ n) where
    pub int32_field-Takes : (v : ℤ) → IsInt32 v → Takes (int32_field r t v) (int32_bytes r n v)
    int32_field-Takes v h = record {
      size = ground (arith, length-append (r.write_tag t) (r.write_int32 v), int32_length v h);
    }

    pub bool_field-Takes : (v : Bool) → Takes (bool_field r t v) (bool_bytes r n v)
    bool_field-Takes v = record {
      size = ground (arith, length-append (r.write_tag t) (r.write_bool v), bool_length v);
    }

    pub string_field-Takes :
        (v : Bytes) → length v < 2 ^ 31 → Takes (string_field r t v) (string_bytes r n v)
    string_field-Takes v h = record {
      size = ground (arith, length-append (r.write_tag t) (r.write_string v), string_length v h);
    }

    -- A repeated field, each value of which has the size that is given.
    length-repeated_field :
        {A : Type 0} (to_bytes : A → Bytes) (size : A → ℕ) (vs : List A)
        → All (λ v. length (r.write_string (to_bytes v)) ≡ size v) vs
        → length (repeated_field r t to_bytes vs) ≡ n * length vs + sizes r size vs
    length-repeated_field to_bytes size [] nothing = omega arith
    length-repeated_field to_bytes size (v ∷ vs) (one, more) = omega (
      arith,
      length-append (r.write_tag t ++ r.write_string (to_bytes v)) (repeated_field r t to_bytes vs),
      length-append (r.write_tag t) (r.write_string (to_bytes v)),
      length-repeated_field to_bytes size vs more,
    )

    pub texts-Takes :
        (vs : List Bytes)
        → All (λ v. length v < 2 ^ 31) vs
        → Takes (repeated_field r t (λ v. v) vs) (texts_bytes r n vs)
    texts-Takes vs small = record {
      size = length-repeated_field (λ v. v) r.string_size vs (All-map string_length vs small);
    }

    -- Messages, the size of each of which is known.
    pub messages-Takes :
        {A : Type 0} (to_bytes : A → Bytes) (size : A → ℕ) (vs : List A)
        → All (λ v. (length (to_bytes v) ≡ size v) × (length (to_bytes v) < 2 ^ 31)) vs
        → Takes (repeated_field r t to_bytes vs) (messages_bytes r n size vs)
    messages-Takes to_bytes size vs ok = record {
      size =
          length-repeated_field to_bytes (λ v. length_delimited_size r (size v)) vs
            (All-map
              (λ v (e, small).
                string_length (to_bytes v) small
                ∙ string_size_parts (to_bytes v) small
                ∙ ap (length_delimited_size r) e)
              vs ok);
    }

    pub packed_field-Takes :
        (vs : List ℤ)
        → All IsInt32 vs
        → length (int32s r vs) < 2 ^ 31
        → Takes (packed_field r t vs) (packed_bytes r n vs)
    packed_field-Takes [] ok small = record { size = refl }
    packed_field-Takes (v ∷ vs) ok small =
        let block = int32s r (v ∷ vs) in
        let e : length block ≡ sizes r r.int32_size (v ∷ vs) = length-int32s (v ∷ vs) ok in
        let some_bytes : (sizes r r.int32_size (v ∷ vs) == 0) ≡ false =
          ground (arith, int32_length v (ok.0), int32_takes v (ok.0)) in
        record {
          size = rw some_bytes (
              omega (
                arith,
                length-append (r.write_tag t) (r.write_string block),
                string_length block small,
                string_size_parts block small,
                tag,
                e,
                ap (λ (k : ℕ). r.int32_size (pos k)) e,
              ));
        }
