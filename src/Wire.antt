-- ===== src/Wire.antt =====
-- Bytes, and the four-byte length that precedes each message on a connection. The program runs on
-- x86 (Windows), so an `int` lies in memory with its low byte first, and htonl and ntohl swap.
use Prim.Native.Char.{code}
use ad_manager.Base.{
  ℕ, ◌+◌, ◌*◌, ◌/◌, ◌%◌, ◌^◌, ◌<◌, String, ◌≡◌, refl, Bool, true, false, ◌&&◌, List, [], ◌∷◌, arith,
  ◌==◌,
}

abbrev pub Bytes : Type 0
Bytes = List ℕ

-- The bytes of a literal (ASCII).
abbrev pub text : String → Bytes
text String.[] = []
text (String.◌∷◌ c s) = code c ∷ text s

-- std::string == std::string.
unfoldable pub bytes_eq : Bytes → Bytes → Bool
bytes_eq [] [] = true
bytes_eq [] (y ∷ ys) = false
bytes_eq (x ∷ xs) [] = false
bytes_eq (x ∷ xs) (y ∷ ys) = x == y && bytes_eq xs ys

pub bytes_eq_refl : (xs : Bytes) → bytes_eq xs xs ≡ true
unfolding bytes_eq
bytes_eq_refl [] = refl
bytes_eq_refl (x ∷ xs) = ground (arith, bytes_eq_refl xs)

pub bytes_eq→eq : (xs ys : Bytes) → bytes_eq xs ys ≡ true → xs ≡ ys
unfolding bytes_eq
bytes_eq→eq [] [] h = refl
bytes_eq→eq [] (y ∷ ys) h = ground arith
bytes_eq→eq (x ∷ xs) [] h = ground arith
bytes_eq→eq (x ∷ xs) (y ∷ ys) h = ground (arith, bytes_eq→eq xs ys)

-- The object representation of a 32-bit word.
abbrev pub word_bytes : ℕ → Bytes
word_bytes w = w % 256 ∷ w / 256 % 256 ∷ w / 65536 % 256 ∷ w / 16777216 % 256 ∷ []

-- The word whose representation starts the bytes. Callers have four bytes at least.
abbrev pub word_at : Bytes → ℕ
word_at [] = 0
word_at (a ∷ []) = a
word_at (a ∷ b ∷ []) = a + 256 * b
word_at (a ∷ b ∷ c ∷ []) = a + 256 * b + 65536 * c
word_at (a ∷ b ∷ c ∷ d ∷ r) = a + 256 * b + 65536 * c + 16777216 * d

-- htonl and ntohl.
abbrev pub swap_word : ℕ → ℕ
swap_word w =
    w % 256 * 16777216 + w / 256 % 256 * 65536 + w / 65536 % 256 * 256 + w / 16777216 % 256

-- What `ss.write((char*)&len, 4)` appends, for `len = htonl(n)`.
unfoldable pub head_bytes : ℕ → Bytes
head_bytes n = word_bytes (swap_word (n % 2 ^ 32))

-- What `ntohl(*buffer_cast<const int*>(data))` reads, as an unsigned word.
unfoldable pub head_value : Bytes → ℕ
head_value b = swap_word (word_at b)

pub head_value-head_bytes : (n : ℕ) → n < 2 ^ 32 → head_value (head_bytes n) ≡ n
unfolding head_value head_bytes
head_value-head_bytes n h = omega arith
