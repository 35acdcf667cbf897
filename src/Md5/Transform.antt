-- ===== src/Md5/Transform.antt =====
-- md5.cc: MD5::transform, the functions F, G, H and I that it is made of, encode and decode.
use ad_manager.Base.{
  ℕ, zero, suc, ◌+◌, ◌-◌, ◌*◌, ◌/◌, ◌%◌, ◌^◌, bit_and, bit_or, bit_xor, List, [], ◌∷◌, ◌++◌,
}
use ad_manager.Wire.{Bytes, word_bytes}

-- `state[4]`.
pub record Words : Type 0 where
  pub a : ℕ
  pub b : ℕ
  pub c : ℕ
  pub d : ℕ

-- The operators on a uint4.
abbrev pub add32 : ℕ → ℕ → ℕ
add32 x y = (x + y) % 2 ^ 32

abbrev pub not32 : ℕ → ℕ
not32 x = 2 ^ 32 - 1 - x

unfoldable pub rotate_left : ℕ → ℕ → ℕ
rotate_left x n = bit_or (x * 2 ^ n % 2 ^ 32) (x / 2 ^ (32 - n))

abbrev pub f_of : ℕ → ℕ → ℕ → ℕ
f_of x y z = bit_or (bit_and x y) (bit_and (not32 x) z)

abbrev pub g_of : ℕ → ℕ → ℕ → ℕ
g_of x y z = bit_or (bit_and x z) (bit_and y (not32 z))

abbrev pub h_of : ℕ → ℕ → ℕ → ℕ
h_of x y z = bit_xor (bit_xor x y) z

abbrev pub i_of : ℕ → ℕ → ℕ → ℕ
i_of x y z = bit_xor y (bit_or x (not32 z))

-- FF, GG, HH and II: the new value of the first word.
unfoldable pub mix : (ℕ → ℕ → ℕ → ℕ) → ℕ → ℕ → ℕ → Words → ℕ
unfolding rotate_left
mix f x s ac w = add32 (rotate_left (add32 w.a (add32 (f w.b w.c w.d) (add32 x ac))) s) w.b

-- The arguments of one call: the number of the word of the block, the shift, and the constant.
abbrev pub Call : Type 0
Call = ℕ × ℕ × ℕ

abbrev pub nth : ℕ → List ℕ → ℕ
nth i [] = 0
nth zero (x ∷ xs) = x
nth (suc i) (x ∷ xs) = nth i xs

-- Each call has the words in turned order: the word that one changes is the second of the next.
unfoldable pub calls : (ℕ → ℕ → ℕ → ℕ) → List ℕ → List Call → Words → Words
unfolding mix
calls f x [] w = w
calls f x ((k, s, ac) ∷ more) w =
    calls f x more (record { a = w.d; b = mix f (nth k x) s ac w; c = w.b; d = w.c })

abbrev pub round_1 : List Call
round_1 =
    (0, 7, 0xd76aa478)
    ∷ (1, 12, 0xe8c7b756)
    ∷ (2, 17, 0x242070db)
    ∷ (3, 22, 0xc1bdceee)
    ∷ (4, 7, 0xf57c0faf)
    ∷ (5, 12, 0x4787c62a)
    ∷ (6, 17, 0xa8304613)
    ∷ (7, 22, 0xfd469501)
    ∷ (8, 7, 0x698098d8)
    ∷ (9, 12, 0x8b44f7af)
    ∷ (10, 17, 0xffff5bb1)
    ∷ (11, 22, 0x895cd7be)
    ∷ (12, 7, 0x6b901122)
    ∷ (13, 12, 0xfd987193)
    ∷ (14, 17, 0xa679438e)
    ∷ (15, 22, 0x49b40821)
    ∷ []

abbrev pub round_2 : List Call
round_2 =
    (1, 5, 0xf61e2562)
    ∷ (6, 9, 0xc040b340)
    ∷ (11, 14, 0x265e5a51)
    ∷ (0, 20, 0xe9b6c7aa)
    ∷ (5, 5, 0xd62f105d)
    ∷ (10, 9, 0x2441453)
    ∷ (15, 14, 0xd8a1e681)
    ∷ (4, 20, 0xe7d3fbc8)
    ∷ (9, 5, 0x21e1cde6)
    ∷ (14, 9, 0xc33707d6)
    ∷ (3, 14, 0xf4d50d87)
    ∷ (8, 20, 0x455a14ed)
    ∷ (13, 5, 0xa9e3e905)
    ∷ (2, 9, 0xfcefa3f8)
    ∷ (7, 14, 0x676f02d9)
    ∷ (12, 20, 0x8d2a4c8a)
    ∷ []

abbrev pub round_3 : List Call
round_3 =
    (5, 4, 0xfffa3942)
    ∷ (8, 11, 0x8771f681)
    ∷ (11, 16, 0x6d9d6122)
    ∷ (14, 23, 0xfde5380c)
    ∷ (1, 4, 0xa4beea44)
    ∷ (4, 11, 0x4bdecfa9)
    ∷ (7, 16, 0xf6bb4b60)
    ∷ (10, 23, 0xbebfbc70)
    ∷ (13, 4, 0x289b7ec6)
    ∷ (0, 11, 0xeaa127fa)
    ∷ (3, 16, 0xd4ef3085)
    ∷ (6, 23, 0x4881d05)
    ∷ (9, 4, 0xd9d4d039)
    ∷ (12, 11, 0xe6db99e5)
    ∷ (15, 16, 0x1fa27cf8)
    ∷ (2, 23, 0xc4ac5665)
    ∷ []

abbrev pub round_4 : List Call
round_4 =
    (0, 6, 0xf4292244)
    ∷ (7, 10, 0x432aff97)
    ∷ (14, 15, 0xab9423a7)
    ∷ (5, 21, 0xfc93a039)
    ∷ (12, 6, 0x655b59c3)
    ∷ (3, 10, 0x8f0ccc92)
    ∷ (10, 15, 0xffeff47d)
    ∷ (1, 21, 0x85845dd1)
    ∷ (8, 6, 0x6fa87e4f)
    ∷ (15, 10, 0xfe2ce6e0)
    ∷ (6, 15, 0xa3014314)
    ∷ (13, 21, 0x4e0811a1)
    ∷ (4, 6, 0xf7537e82)
    ∷ (11, 10, 0xbd3af235)
    ∷ (2, 15, 0x2ad7d2bb)
    ∷ (9, 21, 0xeb86d391)
    ∷ []

-- encode, for the words of `count` and of `state`: least byte first.
abbrev pub encode : List ℕ → Bytes
encode [] = []
encode (w ∷ ws) = word_bytes w ++ encode ws

-- decode. It is called with a multiple of four bytes.
abbrev pub decode : Bytes → List ℕ
decode [] = []
decode (p ∷ []) = []
decode (p ∷ q ∷ []) = []
decode (p ∷ q ∷ r ∷ []) = []
decode (p ∷ q ∷ r ∷ s ∷ more) = (p + 256 * q + 65536 * r + 16777216 * s) ∷ decode more

unfoldable pub transform : Words → Bytes → Words
unfolding calls
transform w block =
    let x = decode block in
    let v =
      calls i_of x round_4 (calls h_of x round_3 (calls g_of x round_2 (calls f_of x round_1 w))) in
    record { a = add32 w.a v.a; b = add32 w.b v.b; c = add32 w.c v.c; d = add32 w.d v.d }

abbrev pub words : Words → List ℕ
words w = w.a ∷ w.b ∷ w.c ∷ w.d ∷ []
