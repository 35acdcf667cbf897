-- ===== src/Message/Runtime.antt =====
-- What the generated code uses of the protobuf runtime (WireFormatLite and CodedInputStream, which
-- are not part of the repository's own code): writers that append a value, and readers that take
-- one off the front of the input. The laws are the runtime's documented behaviour.
use ad_manager.Base.{
  ℕ, ◌+◌, ◌^◌, ◌≤◌, ◌<◌, ◌≡◌, ◌≢◌, Bool, true, Option, some, List, [], ◌++◌, length, ℤ, pos,
}
use ad_manager.Wire.{Bytes}
use ad_manager.Message.Types.{IsInt64, IsInt32}

-- `read_block` is ReadVarintSizeAsInt with PushLimit, and `read_nested` ReadLengthAndPushLimit: each
-- gives what is read up to the limit, and the rest. `read_repeated` is ReadRepeatedPrimitive, with the
-- tag that it expects to follow and the numbers that the field has: it gives what is added.
pub record Runtime : Type 0 where
  pub write_tag : ℕ → Bytes
  pub write_int64 : ℤ → Bytes
  pub write_int32 : ℤ → Bytes
  pub write_string : Bytes → Bytes
  pub write_bool : Bool → Bytes
  pub read_tag : Bytes → ℕ × Bytes  -- 0 at the end of the input
  pub read_int64 : Bytes → Option (ℤ × Bytes)
  pub read_int32 : Bytes → Option (ℤ × Bytes)
  pub read_string : Bytes → Option (Bytes × Bytes)
  pub read_bool : Bytes → Option (Bool × Bytes)
  pub read_block : Bytes → Option (Bytes × Bytes)
  pub read_nested : Bytes → Bytes × Bytes
  pub read_repeated : ℕ → List ℤ → Bytes → Option (List ℤ × Bytes)
  pub skip_field : ℕ → Bytes → Option Bytes
  pub verify_utf8 : Bytes → Bool
  pub int64_size : ℤ → ℕ
  pub int32_size : ℤ → ℕ
  pub string_size : Bytes → ℕ

-- A field's tag has one byte for a field number up to 15, and two for the others that occur here.
pub record IsRuntime (r : Runtime) : Type 0 where
  pub utf8_empty : r.verify_utf8 [] ≡ true
  pub tag_size : (t : ℕ) → t < 128 → length (r.write_tag t) ≡ 1
  pub tag_size_two : (t : ℕ) → 128 ≤ t → t < 2 ^ 14 → length (r.write_tag t) ≡ 2
  pub bool_length : (v : Bool) → length (r.write_bool v) ≡ 1
  pub int32_takes : (v : ℤ) → IsInt32 v → 0 < length (r.write_int32 v)
  pub int64_length : (v : ℤ) → IsInt64 v → length (r.write_int64 v) ≡ r.int64_size v
  pub int32_length : (v : ℤ) → IsInt32 v → length (r.write_int32 v) ≡ r.int32_size v
  pub string_length : (b : Bytes) → length b < 2 ^ 31 → length (r.write_string b) ≡ r.string_size b
  pub string_size_parts :
      (b : Bytes) → length b < 2 ^ 31 → r.string_size b ≡ r.int32_size (pos (length b)) + length b
  pub read_tag-write :
      (t : ℕ) (rest : Bytes) → 0 < t → t < 2 ^ 14 → r.read_tag (r.write_tag t ++ rest) ≡ (t, rest)
  pub read_tag-end : r.read_tag [] ≡ (0, [])
  pub read_int64-write :
      (v : ℤ) (rest : Bytes) → IsInt64 v → r.read_int64 (r.write_int64 v ++ rest) ≡ some (v, rest)
  pub read_int32-write :
      (v : ℤ) (rest : Bytes) → IsInt32 v → r.read_int32 (r.write_int32 v ++ rest) ≡ some (v, rest)
  pub read_string-write :
      (b rest : Bytes)
      → length b < 2 ^ 31
      → r.read_string (r.write_string b ++ rest) ≡ some (b, rest)
  pub read_block-write :
      (b rest : Bytes)
      → length b < 2 ^ 31
      → r.read_block (r.write_string b ++ rest) ≡ some (b, rest)
  pub read_nested-write :
      (b rest : Bytes) → length b < 2 ^ 31 → r.read_nested (r.write_string b ++ rest) ≡ (b, rest)
  pub read_bool-write :
      (v : Bool) (rest : Bytes) → r.read_bool (r.write_bool v ++ rest) ≡ some (v, rest)
  pub read_tag_shrinks : (b : Bytes) → (r.read_tag b).0 ≢ 0 → length (r.read_tag b).1 < length b
  pub read_int64_shrinks :
      (b rest : Bytes) (v : ℤ) → r.read_int64 b ≡ some (v, rest) → length rest ≤ length b
  pub read_int32_shrinks :
      (b rest : Bytes) (v : ℤ) → r.read_int32 b ≡ some (v, rest) → length rest < length b
  pub read_string_shrinks :
      (b rest s : Bytes) → r.read_string b ≡ some (s, rest) → length rest ≤ length b
  pub read_bool_shrinks :
      (b rest : Bytes) (v : Bool) → r.read_bool b ≡ some (v, rest) → length rest ≤ length b
  pub read_block_shrinks :
      (b rest block : Bytes) → r.read_block b ≡ some (block, rest) → length rest ≤ length b
  pub read_nested_shrinks : (b : Bytes) → length (r.read_nested b).1 ≤ length b
  pub read_repeated_shrinks :
      (t : ℕ) (vs ws : List ℤ) (b rest : Bytes)
      → r.read_repeated t vs b ≡ some (ws, rest)
      → length rest ≤ length b
  pub skip_shrinks :
      (t : ℕ) (b rest : Bytes) → r.skip_field t b ≡ some rest → length rest ≤ length b
