-- ===== src/Proto/Kinds.antt =====
-- How the cases of the switch read what the serialiser writes for a field of each kind
-- (ad/AdPlayPolicy.pb.cc).
use ad_manager.Base.{
  ℕ, zero, suc, ◌^◌, ◌≤◌, ◌<◌, ◌≡◌, refl, ap, ◌∙◌, subst, inl, inr, Bool, true, false, Option, some,
  List, [], ◌∷◌, ◌++◌, append-nil, append_assoc, arith, if◌then◌else◌, Bool-cases, length,
  length-append, is_empty, All, ℤ, is_zero,
}
use ad_manager.Wire.{Bytes}
use ad_manager.Message.Types.{IsInt32}
use ad_manager.Message.Runtime.{Runtime, IsRuntime}
use ad_manager.Message.Generated.{int32_field, string_field}
use ad_manager.Proto.Loop.{Case}
use ad_manager.Proto.Reads.{Reads, Reads-none, ◌then◌, Reads-field}
use ad_manager.Proto.Fields.{
  Lens, add, add_all, bool_field, repeated_field, int32s, packed_field, packed_values, int32_case,
  bool_case, bytes_case, text_case, texts_case, packed_case, message_case, parse_block, read_packed,
}

-- A text that can be written and read.
abbrev pub IsText : Runtime → Bytes → Type 0
IsText r v = (r.verify_utf8 v ≡ true) × (length v < 2 ^ 31)

block_back :
    {A : Type 0} (parse : Bytes → Option A) (block rest : Bytes) (v : A)
    → parse block ≡ some v
    → parse_block parse (some (block, rest)) ≡ some (v, rest)
block_back parse block rest v e = rw (parse_block, e) refl

pub absent_flag : (v : Bool) → (if v then true else false) ≡ v
absent_flag true = refl
absent_flag false = refl

module _ (r : Runtime) (laws : IsRuntime r) {M : Type 0} (switch : ℕ → M → Bytes → Case M) where
  open laws use {
    read_int32-write, read_string-write, read_block-write, read_nested-write, read_bool-write,
    int32_takes,
  }

  module _ (t : ℕ) (p : 0 < t) (q : t < 2 ^ 14) where
    pub Reads-int32 :
        (l : Lens M ℤ) (v : ℤ) (m : M)
        → ((n : M) (b : Bytes) → switch t n b ≡ int32_case r l n b)
        → IsInt32 v
        → Reads r switch m (int32_field r t v) (l.set (if is_zero v then l.get m else v) m)
    Reads-int32 l v m takes ok = elim (Bool-cases (is_zero v)) [
      | inl e ↦ rw (e, l.set-get m) (Reads-none r laws switch m)
      | inr e ↦ rw e (
          Reads-field r laws switch t (r.write_int32 v) m (l.set v m) p q
            (λ rest. takes m (r.write_int32 v ++ rest) ∙ rw (read_int32-write v rest ok) refl))
    ]

    pub Reads-bool :
        (l : Lens M Bool) (v : Bool) (m : M)
        → ((n : M) (b : Bytes) → switch t n b ≡ bool_case r l n b)
        → Reads r switch m (bool_field r t v) (l.set (if v then true else l.get m) m)
    Reads-bool l true m takes =
        Reads-field r laws switch t (r.write_bool true) m (l.set true m) p q
          (λ rest. takes m (r.write_bool true ++ rest) ∙ rw (read_bool-write true rest) refl)
    Reads-bool l false m takes = rw (l.set-get m) (Reads-none r laws switch m)

    pub Reads-bytes :
        (l : Lens M Bytes) (v : Bytes) (m : M)
        → ((n : M) (b : Bytes) → switch t n b ≡ bytes_case r l n b)
        → length v < 2 ^ 31
        → Reads r switch m (string_field r t v) (l.set (if is_empty v then l.get m else v) m)
    Reads-bytes l v m takes small = elim (Bool-cases (is_empty v)) [
      | inl e ↦ rw (e, l.set-get m) (Reads-none r laws switch m)
      | inr e ↦ rw e (
          Reads-field r laws switch t (r.write_string v) m (l.set v m) p q
            (λ rest. takes m (r.write_string v ++ rest) ∙ rw (read_string-write v rest small) refl))
    ]

    pub Reads-text :
        (l : Lens M Bytes) (v : Bytes) (m : M)
        → ((n : M) (b : Bytes) → switch t n b ≡ text_case r l n b)
        → IsText r v
        → Reads r switch m (string_field r t v) (l.set (if is_empty v then l.get m else v) m)
    Reads-text l v m takes (utf8, small) = elim (Bool-cases (is_empty v)) [
      | inl e ↦ rw (e, l.set-get m) (Reads-none r laws switch m)
      | inr e ↦ rw e (
          Reads-field r laws switch t (r.write_string v) m (l.set v m) p q (λ rest.
            takes m (r.write_string v ++ rest)
            ∙ rw (read_string-write v rest small) (rw utf8 refl)))
    ]

    -- A repeated field, each value of which is read as one.
    Reads-repeated :
        {A : Type 0} (l : Lens M (List A)) (to_bytes : A → Bytes) (vs : List A) (m : M)
        → All
            (λ v.
              (n : M) (rest : Bytes)
              → switch t n (r.write_string (to_bytes v) ++ rest) ≡ add l n (some (v, rest)))
            vs
        → Reads r switch m (repeated_field r t to_bytes vs) (l.set (l.get m ++ vs) m)
    Reads-repeated l to_bytes [] m nothing =
        rw (append-nil (l.get m), l.set-get m) (Reads-none r laws switch m)
    Reads-repeated l to_bytes (v ∷ vs) m (one, more) =
        let n = l.set (l.get m ++ (v ∷ [])) m in
        let same : l.set (l.get n ++ vs) n ≡ l.set (l.get m ++ (v ∷ vs)) m =
          rw
            (
              l.get-set (l.get m ++ (v ∷ [])) m,
              l.set-set (l.get m ++ (v ∷ [])) ((l.get m ++ (v ∷ [])) ++ vs) m,
              append_assoc (l.get m) (v ∷ []) vs,
            )
            refl in
        subst (Reads r switch m (repeated_field r t to_bytes (v ∷ vs))) same (
          Reads-field r laws switch t (r.write_string (to_bytes v)) m n p q (one m)
          then Reads-repeated l to_bytes vs n more)

    pub Reads-texts :
        (l : Lens M (List Bytes)) (vs : List Bytes) (m : M)
        → ((n : M) (b : Bytes) → switch t n b ≡ texts_case r l n b)
        → All (IsText r) vs
        → Reads r switch m (repeated_field r t (λ v. v) vs) (l.set (l.get m ++ vs) m)
    Reads-texts l vs m takes ok = Reads-repeated l (λ v. v) vs m (each vs ok)
      where
        each :
            (ws : List Bytes)
            → All (IsText r) ws
            → All
                (λ v.
                  (n : M) (rest : Bytes)
                  → switch t n (r.write_string v ++ rest) ≡ add l n (some (v, rest)))
                ws
        each [] nothing = tt
        each (w ∷ ws) ((utf8, small), more) = (
          λ n rest.
              takes n (r.write_string w ++ rest)
              ∙ rw (read_string-write w rest small) (rw utf8 refl),
          each ws more,
        )

    -- Messages that their own class reads back.
    pub Reads-messages :
        {A : Type 0} (l : Lens M (List A)) (to_bytes : A → Bytes) (parse : Bytes → Option A)
        (P : A → Type 0) (vs : List A) (m : M)
        → ((n : M) (b : Bytes) → switch t n b ≡ message_case r parse l n b)
        → ((v : A) → P v → parse (to_bytes v) ≡ some v)
        → All (λ v. P v × (length (to_bytes v) < 2 ^ 31)) vs
        → Reads r switch m (repeated_field r t to_bytes vs) (l.set (l.get m ++ vs) m)
    Reads-messages {A} l to_bytes parse P vs m takes back ok =
        Reads-repeated l to_bytes vs m (each vs ok)
      where
        each :
            (ws : List A)
            → All (λ v. P v × (length (to_bytes v) < 2 ^ 31)) ws
            → All
                (λ v.
                  (n : M) (rest : Bytes)
                  → switch t n (r.write_string (to_bytes v) ++ rest) ≡ add l n (some (v, rest)))
                ws
        each [] nothing = tt
        each (w ∷ ws) ((good, small), more) = (
          λ n rest.
              takes n (r.write_string (to_bytes w) ++ rest)
              ∙ ap (λ o. add l n (parse_block parse (some o)))
                  (read_nested-write (to_bytes w) rest small)
              ∙ ap (add l n) (block_back parse (to_bytes w) rest w (back w good)),
          each ws more,
        )

  length-int32s : (vs : List ℤ) → All IsInt32 vs → length vs ≤ length (int32s r vs)
  length-int32s [] ok = omega arith
  length-int32s (v ∷ vs) (one, more) = omega (
    arith,
    length-append (r.write_int32 v) (int32s r vs),
    int32_takes v one,
    length-int32s vs more,
  )

  is_empty-int32s : (v : ℤ) (more : Bytes) → IsInt32 v → is_empty (r.write_int32 v ++ more) ≡ false
  is_empty-int32s v more ok = long (r.write_int32 v) (int32_takes v ok)
    where
      long : (b : Bytes) → 0 < length b → is_empty (b ++ more) ≡ false
      long [] h = absurd (omega arith)
      long (x ∷ b) h = refl

  packed_values-int32s :
      (f : ℕ) (vs : List ℤ)
      → All IsInt32 vs
      → length vs ≤ f
      → packed_values r f (int32s r vs) ≡ some vs
  unfolding packed_values
  packed_values-int32s zero [] ok h = refl
  packed_values-int32s (suc f) [] ok h = refl
  packed_values-int32s zero (v ∷ vs) ok h = absurd (omega arith)
  packed_values-int32s (suc f) (v ∷ vs) (one, more) h =
      rw (packed_values, is_empty-int32s v (int32s r vs) one)
        (rw (read_int32-write v (int32s r vs) one)
          (rw (packed_values-int32s f vs more (omega arith)) refl))

  module _ (t : ℕ) (p : 0 < t) (q : t < 2 ^ 14) where
    pub Reads-packed :
        (l : Lens M (List ℤ)) (vs : List ℤ) (m : M)
        → ((n : M) (b : Bytes) → switch t n b ≡ packed_case r l n b)
        → All IsInt32 vs
        → length (int32s r vs) < 2 ^ 31
        → Reads r switch m (packed_field r t vs) (l.set (l.get m ++ vs) m)
    Reads-packed l [] m takes ok small =
        rw (append-nil (l.get m), l.set-get m) (Reads-none r laws switch m)
    Reads-packed l (v ∷ vs) m takes ok small =
        let block = int32s r (v ∷ vs) in
        Reads-field r laws switch t (r.write_string block) m (l.set (l.get m ++ (v ∷ vs)) m) p q
          (λ rest.
            takes m (r.write_string block ++ rest)
            ∙ ap (λ o. add_all l m (read_packed r o)) (read_block-write block rest small)
            ∙ ap (add_all l m) (
                block_back (λ c. packed_values r (length c) c) block rest (v ∷ vs)
                  (packed_values-int32s (length block) (v ∷ vs) ok (length-int32s (v ∷ vs) ok))))
