-- ===== src/Proto/Fields.antt =====
-- What the generated code of a class does for a field of each kind (ad/AdPlayPolicy.pb.cc).
use ad_manager.Base.{
  ℕ, zero, suc, ◌+◌, ◌*◌, ◌≡◌, Bool, true, false, Option, none, some, List, [], ◌∷◌, ◌++◌, ◌==◌,
  if◌then◌else◌, length, is_empty, ℤ, pos, is_zero,
}
use ad_manager.Wire.{Bytes}
use ad_manager.Message.Runtime.{Runtime}
use ad_manager.Proto.Loop.{Case, taken}

-- A field of a class: its getter and its setter.
pub record Lens (M A : Type 0) : Type 0 where
  pub get : M → A
  pub set : A → M → M
  pub set-get : (m : M) → set (get m) m ≡ m
  pub get-set : (a : A) (m : M) → get (set a m) ≡ a
  pub set-set : (a b : A) (m : M) → set b (set a m) ≡ set b m

abbrev pub checked : (Bytes → Bool) → Option (Bytes × Bytes) → Option (Bytes × Bytes)
checked ok none = none
checked ok (some (v, rest)) = if ok v then some (v, rest) else none

abbrev pub parse_block :
    {A : Type 0} → (Bytes → Option A) → Option (Bytes × Bytes) → Option (A × Bytes)
parse_block parse none = none
parse_block parse (some (block, rest)) = elim (parse block) [
  | none ↦ none
  | some v ↦ some (v, rest)
]

abbrev pub cons_to : {A : Type 0} → A → Option (List A) → Option (List A)
cons_to v none = none
cons_to v (some vs) = some (v ∷ vs)

module _ {M A : Type 0} (l : Lens M A) where
  -- The field is set to what was read.
  abbrev pub store : M → Option (A × Bytes) → Case M
  store m none = taken none
  store m (some (v, rest)) = taken (some (l.set v m, rest))

module _ {M A : Type 0} (l : Lens M (List A)) where
  -- What was read is added to a repeated field.
  abbrev pub add : M → Option (A × Bytes) → Case M
  add m none = taken none
  add m (some (v, rest)) = taken (some (l.set (l.get m ++ (v ∷ [])) m, rest))

  abbrev pub add_all : M → Option (List A × Bytes) → Case M
  add_all m none = taken none
  add_all m (some (vs, rest)) = taken (some (l.set (l.get m ++ vs) m, rest))

module _ (r : Runtime) where
  open r use {
    write_tag, write_int32, write_string, write_bool, read_int32, read_string, read_bool,
    verify_utf8, int32_size, string_size, read_block, read_nested, read_repeated,
  }

  abbrev pub bool_field : ℕ → Bool → Bytes
  bool_field tag v = if v then write_tag tag ++ write_bool v else []

  -- The loop over a repeated field. A message is written as its size and its bytes.
  abbrev pub repeated_field : {A : Type 0} → ℕ → (A → Bytes) → List A → Bytes
  repeated_field tag to_bytes [] = []
  repeated_field tag to_bytes (v ∷ vs) =
      (write_tag tag ++ write_string (to_bytes v)) ++ repeated_field tag to_bytes vs

  abbrev pub int32s : List ℤ → Bytes
  int32s [] = []
  int32s (v ∷ vs) = write_int32 v ++ int32s vs

  -- The size that precedes the numbers is the one that ByteSizeLong has stored.
  abbrev pub packed_field : ℕ → List ℤ → Bytes
  packed_field tag vs = if is_empty vs then [] else write_tag tag ++ write_string (int32s vs)

  -- ReadPackedPrimitive: numbers up to the end of the block.
  unfoldable pub packed_values : ℕ → Bytes → Option (List ℤ)
  packed_values zero b = if is_empty b then some [] else none
  packed_values (suc fuel) b = elim (is_empty b) [
    | true ↦ some []
    | false ↦ elim (read_int32 b) [
      | none ↦ none
      | some (v, rest) ↦ cons_to v (packed_values fuel rest)
    ]
  ]

  abbrev pub read_packed : Option (Bytes × Bytes) → Option (List ℤ × Bytes)
  read_packed = parse_block (λ block. packed_values (length block) block)

  module _ {M : Type 0} where
    abbrev pub int32_case : Lens M ℤ → M → Bytes → Case M
    int32_case l m b = store l m (read_int32 b)

    abbrev pub bool_case : Lens M Bool → M → Bytes → Case M
    bool_case l m b = store l m (read_bool b)

    abbrev pub bytes_case : Lens M Bytes → M → Bytes → Case M
    bytes_case l m b = store l m (read_string b)

    abbrev pub text_case : Lens M Bytes → M → Bytes → Case M
    text_case l m b = store l m (checked verify_utf8 (read_string b))

    abbrev pub texts_case : Lens M (List Bytes) → M → Bytes → Case M
    texts_case l m b = add l m (checked verify_utf8 (read_string b))

    abbrev pub packed_case : Lens M (List ℤ) → M → Bytes → Case M
    packed_case l m b = add_all l m (read_packed (read_block b))

    -- Numbers of a repeated field that are not packed. The tag given is that of the packed field.
    abbrev pub single_case : ℕ → Lens M (List ℤ) → M → Bytes → Case M
    single_case packed_tag l m b = add_all l m (read_repeated packed_tag (l.get m) b)

    -- ReadMessageNoVirtualNoRecursionDepth: what is up to the limit, all of which is the message.
    abbrev pub message_case :
        {A : Type 0} → (Bytes → Option A) → Lens M (List A) → M → Bytes → Case M
    message_case parse l m b = add l m (parse_block parse (some (read_nested b)))

  -- What ByteSizeLong adds for a field.
  abbrev pub int32_bytes : ℕ → ℤ → ℕ
  int32_bytes tag_bytes v = if is_zero v then 0 else tag_bytes + int32_size v

  abbrev pub bool_bytes : ℕ → Bool → ℕ
  bool_bytes tag_bytes v = if v then tag_bytes + 1 else 0

  abbrev pub string_bytes : ℕ → Bytes → ℕ
  string_bytes tag_bytes v = if is_empty v then 0 else tag_bytes + string_size v

  -- LengthDelimitedSize.
  abbrev pub length_delimited_size : ℕ → ℕ
  length_delimited_size n = int32_size (pos n) + n

  abbrev pub sizes : {A : Type 0} → (A → ℕ) → List A → ℕ
  sizes size [] = 0
  sizes size (v ∷ vs) = size v + sizes size vs

  abbrev pub texts_bytes : ℕ → List Bytes → ℕ
  texts_bytes tag_bytes vs = tag_bytes * length vs + sizes string_size vs

  abbrev pub messages_bytes : {A : Type 0} → ℕ → (A → ℕ) → List A → ℕ
  messages_bytes tag_bytes size vs =
      tag_bytes * length vs + sizes (λ v. length_delimited_size (size v)) vs

  abbrev pub packed_bytes : ℕ → List ℤ → ℕ
  packed_bytes tag_bytes vs =
      let data_size = sizes int32_size vs in
      (if data_size == 0 then 0 else tag_bytes + int32_size (pos data_size)) + data_size
