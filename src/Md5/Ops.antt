-- ===== src/Md5/Ops.antt =====
-- md5.hh and md5.cc: a digest that is being computed, and the operations on it.
use ad_manager.Base.{
  ℕ, zero, suc, ◌+◌, ◌-◌, ◌*◌, ◌/◌, ◌%◌, ◌^◌, Bool, true, false, [], ◌∷◌, ◌++◌, ltb, leb,
  if◌then◌else◌, length, take, drop,
}
use ad_manager.Wire.{Bytes}
use ad_manager.Md5.Transform.{Words, transform, encode, words}

-- `buffer` has 64 bytes, and `digest` 16.
pub record Md5 : Type 0 where
  pub state : Words
  pub count_low : ℕ
  pub count_high : ℕ
  pub buffer : Bytes
  pub digest : Bytes
  pub finalized : Bool

abbrev pub zeros : ℕ → Bytes
zeros zero = []
zeros (suc n) = 0 ∷ zeros n

-- What the constructor leaves in the arrays that `init` does not set is not known.
unfoldable pub init : Bytes → Bytes → Md5
init buffer digest = record {
  state = record { a = 0x67452301; b = 0xefcdab89; c = 0x98badcfe; d = 0x10325476 };
  count_low = 0;
  count_high = 0;
  buffer = buffer;
  digest = digest;
  finalized = false;
}

-- memcpy to an array, from a position on.
abbrev pub put : ℕ → Bytes → Bytes → Bytes
put at input old = take at old ++ (input ++ drop (at + length input) old)

-- The loop over the whole blocks of the input, from the index `at` on, where `rest` is what follows:
-- the state, and the bytes that are left. The index and the test `input_index + 63 < input_length`
-- are of 32 bits. Past the end of the input, which the test can fail to see when its sum wraps, the
-- model has no more bytes.
unfoldable pub blocks : ℕ → ℕ → ℕ → Words → Bytes → Words × Bytes
blocks zero at size w rest = (w, rest)
blocks (suc n) at size w rest =
    let more = blocks n ((at + 64) % 2 ^ 32) size (transform w (take 64 rest)) (drop 64 rest) in
    if ltb ((at + 63) % 2 ^ 32) size then more else (w, rest)

-- The number of bytes that wait in the buffer.
abbrev pub buffer_index : Md5 → ℕ
buffer_index m = m.count_low / 8 % 64

abbrev pub add_count : ℕ → Md5 → Md5
add_count n m =
    let bits = n * 8 % 2 ^ 32 in
    let low = (m.count_low + bits) % 2 ^ 32 in
    record m {
      count_low = low;
      count_high =
          ((if ltb low bits then m.count_high + 1 else m.count_high) + n / 2 ^ 29) % 2 ^ 32;
    }

-- With enough bytes to fill the buffer, it is filled and taken in, then whole blocks of the input;
-- what is left goes to the buffer's start.
abbrev pub fill : Bytes → ℕ → Md5 → Md5
fill input at m =
    let full = put at (take (64 - at) input) m.buffer in
    let more = drop (64 - at) input in
    let (w, rest) = blocks (length more) (64 - at) (length input) (transform m.state full) more in
    record m { state = w; buffer = put 0 rest full }

unfoldable pub update : Bytes → Md5 → Md5
unfolding blocks
update input m =
    let at = buffer_index m in
    let n = add_count (length input) m in
    if m.finalized
    then m
    else if leb (64 - at) (length input)
    then fill input at n
    else record n { buffer = put at input n.buffer }

unfoldable pub padding : Bytes
padding = 0x80 ∷ zeros 63

abbrev pub pad_len : ℕ → ℕ
pad_len index = if ltb index 56 then 56 - index else 120 - index

-- `sizeof(*buffer)` is 1, so one byte of the buffer is set to 0.
unfoldable pub finalize : Md5 → Md5
unfolding update padding
finalize m =
    let bits = encode (m.count_low ∷ m.count_high ∷ []) in
    let n = update bits (update (take (pad_len (buffer_index m)) padding) m) in
    if m.finalized then m else record n {
      digest = encode (words n.state);
      buffer = put 0 (0 ∷ []) n.buffer;
      finalized = true;
    }

-- A hexadecimal digit of "%02x".
abbrev pub hex_char : ℕ → ℕ
hex_char n = if ltb n 10 then n + 48 else n + 87

abbrev pub hex_of : Bytes → Bytes
hex_of [] = []
hex_of (b ∷ bs) = hex_char (b / 16) ∷ hex_char (b % 16) ∷ hex_of bs

unfoldable pub hex_digest : Md5 → Bytes
hex_digest m = if m.finalized then hex_of m.digest else []
