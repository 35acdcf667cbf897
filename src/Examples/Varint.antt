-- ===== src/Examples/Varint.antt =====
-- A runtime as the theorems assume one: numbers in groups of seven bits, texts in ASCII.
use ad_manager.Base.{
  ℕ, zero, suc, ◌+◌, ◌-◌, ◌*◌, ◌/◌, ◌%◌, ◌^◌, ◌≤◌, ◌<◌, ◌≡◌, refl, ap, ◌≢◌, inl, inr, Bool, true,
  false, not, ◌&&◌, Option, none, some, [], ◌∷◌, ◌++◌, append_assoc, arith, ltb, leb, ◌==◌,
  if◌then◌else◌, Bool-cases, Option-cases, length, length-append, take, drop, take-append,
  drop-append, ℤ, pos, negsuc, to_u64, to_i64,
}
use ad_manager.Wire.{Bytes}
use ad_manager.Message.Types.{IsInt64, IsInt32}
use ad_manager.Message.Runtime.{Runtime, IsRuntime}

unfoldable pub varint_fuel : ℕ → ℕ → Bytes
varint_fuel zero n = n ∷ []
varint_fuel (suc f) n = elim (ltb n 128) [
  | true ↦ n ∷ []
  | false ↦ (n % 128 + 128) ∷ varint_fuel f (n / 128)
]

abbrev add_group : ℕ → Option (ℕ × Bytes) → Option (ℕ × Bytes)
add_group b none = none
add_group b (some (v, rest)) = some (b - 128 + 128 * v, rest)

unfoldable pub unvarint : Bytes → Option (ℕ × Bytes)
unvarint [] = none
unvarint (b ∷ rest) = if ltb b 128 then some (b, rest) else add_group b (unvarint rest)

unfoldable pub varint : ℕ → Bytes
unfolding varint_fuel
varint n = varint_fuel n n

unvarint-fuel :
    (f n : ℕ) (rest : Bytes) → n ≤ f → unvarint (varint_fuel f n ++ rest) ≡ some (n, rest)
unfolding unvarint varint_fuel
unvarint-fuel zero n rest h = ground arith
unvarint-fuel (suc f) n rest h = elim (Bool-cases (ltb n 128)) [
  | inl e ↦ rw (e, varint_fuel) (rw e refl)
  | inr e ↦
      rw (e, varint_fuel)
        (let big : ltb (n % 128 + 128) 128 ≡ false = ground arith in
          rw (big, unvarint-fuel f (n / 128) rest (ground arith)) (ground arith))
]

unvarint-varint : (n : ℕ) (rest : Bytes) → unvarint (varint n ++ rest) ≡ some (n, rest)
unfolding varint
unvarint-varint n rest = unvarint-fuel n n rest (omega arith)

unvarint_shrinks : (b rest : Bytes) (v : ℕ) → unvarint b ≡ some (v, rest) → length rest < length b
unfolding unvarint
unvarint_shrinks [] rest v e = cc
unvarint_shrinks (c ∷ b) rest v e = elim (Option-cases (unvarint b)) [
  | inl stop ↦ ground arith
  | inr ((w, left), more) ↦ ground (arith, unvarint_shrinks b left w more)
]

-- (int32_t) of the low 32 bits.
to_i32 : ℕ → ℤ
to_i32 n = let w = n % 2 ^ 32 in if ltb w (2 ^ 31) then pos w else negsuc (2 ^ 32 - w - 1)

to_i32-to_u64 : (v : ℤ) → IsInt32 v → to_i32 (to_u64 v) ≡ v
unfolding to_i32 to_u64
to_i32-to_u64 (pos n) h = ground arith
to_i32-to_u64 (negsuc n) h = ground arith

to_i64-to_u64 : (v : ℤ) → IsInt64 v → to_i64 (to_u64 v) ≡ v
unfolding to_i64 to_u64
to_i64-to_u64 (pos n) h = ground arith
to_i64-to_u64 (negsuc n) h = ground arith

abbrev on_value {ℓ} : {A : Type ℓ} → (ℕ → A) → Option (ℕ × Bytes) → Option (A × Bytes)
on_value f none = none
on_value f (some (v, rest)) = some (f v, rest)

abbrev tag_of : Option (ℕ × Bytes) → ℕ × Bytes
tag_of none = (0, [])
tag_of (some (t, rest)) = (t, rest)

abbrev cut : Option (ℕ × Bytes) → Option (Bytes × Bytes)
cut none = none
cut (some (n, rest)) = if leb n (length rest) then some (take n rest, drop n rest) else none

-- A length that cannot be read counts as 0.
abbrev nested_of : Bytes → Option (Bytes × Bytes) → Bytes × Bytes
nested_of b none = ([], b)
nested_of b (some (block, rest)) = (block, rest)

-- What follows a number.
abbrev left_of : Option (ℕ × Bytes) → Option Bytes
left_of none = none
left_of (some (n, rest)) = some rest

-- A limit behind the end of the input counts as that end.
abbrev up_to_limit : Option (ℕ × Bytes) → Option (Bytes × Bytes)
up_to_limit none = none
up_to_limit (some (n, rest)) = some (take n rest, drop n rest)

unfoldable pub all_ascii : Bytes → Bool
all_ascii [] = true
all_ascii (b ∷ bs) = ltb b 128 && all_ascii bs

unfoldable pub runtime : Runtime
unfolding varint unvarint to_u64 to_i64 to_i32 all_ascii
runtime = record {
  write_tag = varint;
  write_int64 = λ v. varint (to_u64 v);
  write_int32 = λ v. varint (to_u64 v);
  write_string = λ b. varint (length b) ++ b;
  write_bool = λ v. (if v then 1 else 0) ∷ [];
  read_tag = λ b. tag_of (unvarint b);
  read_int64 = λ b. on_value to_i64 (unvarint b);
  read_int32 = λ b. on_value to_i32 (unvarint b);
  read_string = λ b. cut (unvarint b);
  read_bool = λ b. on_value (λ n. not (n == 0)) (unvarint b);
  read_block = λ b. up_to_limit (unvarint b);
  read_nested = λ b. nested_of b (up_to_limit (unvarint b));
  read_repeated = λ tag vs b. on_value (λ n. to_i32 n ∷ []) (unvarint b);
  skip_field = λ tag b. if tag % 8 == 0 then left_of (unvarint b) else none;
  verify_utf8 = all_ascii;
  int64_size = λ v. length (varint (to_u64 v));
  int32_size = λ v. length (varint (to_u64 v));
  string_size = λ b. length (varint (length b)) + length b;
}

varint-two : (t : ℕ) → 128 ≤ t → t < 2 ^ 14 → length (varint t) ≡ 2
unfolding varint varint_fuel
varint-two zero h h' = absurd (omega arith)
varint-two (suc zero) h h' = absurd (omega arith)
varint-two (suc (suc t)) h h' =
    let big : ltb (suc (suc t)) 128 ≡ false = ground arith in
    let small : ltb (suc (suc t) / 128) 128 ≡ true = ground arith in
    rw (big, varint_fuel) (rw (small, varint_fuel) refl)

word_same : (n : ℕ) → n < 2 ^ 31 → n ≡ to_u64 (pos n)
unfolding to_u64
word_same n h = ground arith

varint_takes : (n : ℕ) → 0 < length (varint n)
unfolding varint varint_fuel
varint_takes zero = omega arith
varint_takes (suc n) = ground arith

bool_back :
    (v : Bool) (rest : Bytes)
    → on_value (λ n. not (n == 0)) (unvarint ((if v then 1 else 0) ∷ rest)) ≡ some (v, rest)
unfolding unvarint
bool_back true rest = refl
bool_back false rest = refl

varint-small : (t : ℕ) → t < 128 → length (varint t) ≡ 1
unfolding varint varint_fuel
varint-small zero h = refl
varint-small (suc t) h =
    let small : ltb (suc t) 128 ≡ true = ground arith in rw (small, varint_fuel) refl

value_shrinks {ℓ} :
    {A : Type ℓ} (f : ℕ → A) (b rest : Bytes) (v : A)
    → on_value f (unvarint b) ≡ some (v, rest)
    → length rest < length b
value_shrinks f b rest v e = elim (Option-cases (unvarint b)) [
  | inl stop ↦ ground arith
  | inr ((w, left), more) ↦ ground (arith, unvarint_shrinks b left w more)
]

length-drop-le : (n : ℕ) (b : Bytes) → length (drop n b) ≤ length b
length-drop-le zero b = omega arith
length-drop-le (suc n) [] = omega arith
length-drop-le (suc n) (x ∷ b) = omega (arith, length-drop-le n b)

cut_shrinks : (b rest s : Bytes) → cut (unvarint b) ≡ some (s, rest) → length rest ≤ length b
cut_shrinks b rest s e = elim (Option-cases (unvarint b)) [
  | inl stop ↦ ground arith
  | inr ((n, left), more) ↦ ground (arith, unvarint_shrinks b left n more, length-drop-le n left)
]

tag_shrinks : (b : Bytes) → (tag_of (unvarint b)).0 ≢ 0 → length (tag_of (unvarint b)).1 < length b
tag_shrinks b h = elim (Option-cases (unvarint b)) [
  | inl stop ↦ ground arith
  | inr ((n, left), more) ↦ ground (arith, unvarint_shrinks b left n more)
]

cut-varint : (b rest : Bytes) → cut (unvarint ((varint (length b) ++ b) ++ rest)) ≡ some (b, rest)
cut-varint b rest =
    rw (append_assoc (varint (length b)) b rest, unvarint-varint (length b) (b ++ rest))
      (let fits : leb (length b) (length (b ++ rest)) ≡ true =
          ground (arith, length-append b rest) in
        rw (fits, take-append b rest, drop-append b rest) refl)

up_to_limit-varint :
    (b rest : Bytes) → up_to_limit (unvarint ((varint (length b) ++ b) ++ rest)) ≡ some (b, rest)
up_to_limit-varint b rest =
    rw (append_assoc (varint (length b)) b rest, unvarint-varint (length b) (b ++ rest))
      (rw (take-append b rest, drop-append b rest) refl)

up_to_limit_shrinks :
    (b rest block : Bytes) → up_to_limit (unvarint b) ≡ some (block, rest) → length rest ≤ length b
up_to_limit_shrinks b rest block e = elim (Option-cases (unvarint b)) [
  | inl stop ↦ ground arith
  | inr ((n, left), more) ↦ ground (arith, unvarint_shrinks b left n more, length-drop-le n left)
]

nested_shrinks : (b : Bytes) → length (nested_of b (up_to_limit (unvarint b))).1 ≤ length b
nested_shrinks b = elim (Option-cases (unvarint b)) [
  | inl stop ↦ ground arith
  | inr ((n, left), more) ↦ ground (arith, unvarint_shrinks b left n more, length-drop-le n left)
]

number_shrinks :
    (t : ℕ) (b rest : Bytes)
    → (if t % 8 == 0 then left_of (unvarint b) else none) ≡ some rest
    → length rest ≤ length b
number_shrinks t b rest e = elim (Option-cases (unvarint b)) [
  | inl stop ↦ ground arith
  | inr ((n, left), more) ↦ ground (arith, unvarint_shrinks b left n more)
]

pub runtime-IsRuntime : IsRuntime runtime
unfolding runtime
runtime-IsRuntime = record {
  utf8_empty = refl;
  tag_size = varint-small;
  tag_size_two = varint-two;
  bool_length = λ v. refl;
  int32_takes = λ v h. varint_takes (to_u64 v);
  int64_length = λ v h. refl;
  int32_length = λ v h. refl;
  string_length = λ b h. length-append (varint (length b)) b;
  string_size_parts = λ b h. ap (λ (n : ℕ). length (varint n) + length b) (word_same (length b) h);
  read_tag-write = λ t rest p q. rw (unvarint-varint t rest) refl;
  read_tag-end = refl;
  read_int64-write = λ v rest h. rw (unvarint-varint (to_u64 v) rest, to_i64-to_u64 v h) refl;
  read_int32-write = λ v rest h. rw (unvarint-varint (to_u64 v) rest, to_i32-to_u64 v h) refl;
  read_string-write = λ b rest h. cut-varint b rest;
  read_block-write = λ b rest h. up_to_limit-varint b rest;
  read_nested-write =
      λ b rest h. ap (nested_of ((varint (length b) ++ b) ++ rest)) (up_to_limit-varint b rest);
  read_bool-write = bool_back;
  read_tag_shrinks = tag_shrinks;
  read_int64_shrinks = λ b rest v e. omega (arith, value_shrinks to_i64 b rest v e);
  read_int32_shrinks = value_shrinks to_i32;
  read_string_shrinks = λ b rest s e. cut_shrinks b rest s e;
  read_bool_shrinks = λ b rest v e. omega (arith, value_shrinks (λ n. not (n == 0)) b rest v e);
  read_block_shrinks = λ b rest block e. up_to_limit_shrinks b rest block e;
  read_nested_shrinks = nested_shrinks;
  read_repeated_shrinks =
      λ t vs ws b rest e. omega (arith, value_shrinks (λ n. to_i32 n ∷ []) b rest ws e);
  skip_shrinks = number_shrinks;
}
