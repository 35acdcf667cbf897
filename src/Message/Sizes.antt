-- ===== src/Message/Sizes.antt =====
-- How many bytes a message takes (SerializeWithCachedSizes against ByteSizeLong).
use ad_manager.Base.{
  ℕ, ◌+◌, ◌^◌, ◌<◌, ◌≡◌, true, arith, if◌then◌else◌, length, length-append, is_empty, ℤ, is_zero,
}
use ad_manager.Wire.{Bytes}
use ad_manager.Message.Types.{Message, IsInt64, IsInt32}
use ad_manager.Message.Runtime.{Runtime, IsRuntime}
use ad_manager.Message.Generated.{int64_field, int32_field, string_field, serialize, byte_size_long}

-- What the program writes: numbers in their ranges, texts that are UTF-8, and no string of 2^31
-- bytes or more.
pub record IsWritable (r : Runtime) (m : Message) : Type 0 where
  pub id_range : IsInt64 m.id
  pub code_range : IsInt32 m.return_code
  pub method_utf8 : r.verify_utf8 m.method ≡ true
  pub return_msg_utf8 : r.verify_utf8 m.return_msg ≡ true
  pub method_size : length m.method < 2 ^ 31
  pub content_size : length m.content < 2 ^ 31
  pub return_msg_size : length m.return_msg < 2 ^ 31

module _ (r : Runtime) (laws : IsRuntime r) where
  open laws use {
    tag_size, int64_length, int32_length, string_length, read_tag-write, read_tag-end,
    read_int64-write, read_int32-write, read_string-write,
  }

  length-int64_field :
      (t : ℕ) (v : ℤ)
      → t < 128
      → IsInt64 v
      → length (int64_field r t v) ≡ (if is_zero v then 0 else 1 + r.int64_size v)
  length-int64_field t v ht h =
      ground
        (arith, length-append (r.write_tag t) (r.write_int64 v), tag_size t ht, int64_length v h)

  length-int32_field :
      (t : ℕ) (v : ℤ)
      → t < 128
      → IsInt32 v
      → length (int32_field r t v) ≡ (if is_zero v then 0 else 1 + r.int32_size v)
  length-int32_field t v ht h =
      ground
        (arith, length-append (r.write_tag t) (r.write_int32 v), tag_size t ht, int32_length v h)

  length-string_field :
      (t : ℕ) (v : Bytes)
      → t < 128
      → length v < 2 ^ 31
      → length (string_field r t v) ≡ (if is_empty v then 0 else 1 + r.string_size v)
  length-string_field t v ht h =
      ground
        (arith, length-append (r.write_tag t) (r.write_string v), tag_size t ht, string_length v h)

  -- For a writable message, the serialised size that ByteSizeLong computes is the number of bytes
  -- that are written.
  length-serialize : (m : Message) → IsWritable r m → length (serialize r m) ≡ byte_size_long r m
  unfolding serialize byte_size_long
  length-serialize m w =
      rw
        (
          length-append (int64_field r 8 m.id) _,
          length-append (string_field r 18 m.method) _,
          length-append (string_field r 26 m.content) _,
          length-append (int32_field r 32 m.return_code) (string_field r 42 m.return_msg),
          length-int64_field 8 m.id (omega arith) w.id_range,
          length-string_field 18 m.method (omega arith) w.method_size,
          length-string_field 26 m.content (omega arith) w.content_size,
          length-int32_field 32 m.return_code (omega arith) w.code_range,
          length-string_field 42 m.return_msg (omega arith) w.return_msg_size,
        )
        (omega arith)
