-- ===== src/Md5/Absorb.antt =====
-- The digest byte by byte: what MD5::update computes, whatever pieces the input comes in (md5.cc).
use ad_manager.Base.{
  ℕ, zero, suc, ◌+◌, ◌*◌, ◌%◌, ◌^◌, ◌≤◌, ◌<◌, ◌≡◌, refl, sym, ap, ◌∙◌, true, false, [], ◌∷◌, ◌++◌,
  append-nil, append_assoc, arith, ltb, ◌==◌, if◌then◌else◌, if_both, length, length-append, take,
  drop, append-take, length-take, length-drop,
}
use ad_manager.Wire.{Bytes}
use ad_manager.Md5.Transform.{Words, transform}
use ad_manager.Md5.Ops.{blocks}

-- The state over the whole blocks, and the bytes of the block that has begun.
abbrev pub View : Type 0
View = Words × Bytes

abbrev pub take_in : Words → Bytes → View
take_in w p = if length p == 64 then (transform w p, []) else (w, p)

-- One byte is put behind the others; a full block is taken into the state.
unfoldable pub absorb : View → Bytes → View
absorb v [] = v
absorb (w, p) (x ∷ xs) = absorb (take_in w (p ++ (x ∷ []))) xs

pub absorb-append : (v : View) (xs ys : Bytes) → absorb v (xs ++ ys) ≡ absorb (absorb v xs) ys
unfolding absorb
absorb-append v [] ys = refl
absorb-append (w, p) (x ∷ xs) ys = absorb-append (take_in w (p ++ (x ∷ []))) xs ys

-- Too few bytes to fill the block wait.
pub absorb-few :
    (w : Words) (p xs : Bytes) → length p + length xs < 64 → absorb (w, p) xs ≡ (w, p ++ xs)
unfolding absorb
absorb-few w p [] h = rw (append-nil p) refl
absorb-few w p (x ∷ xs) h =
    let n : length (p ++ (x ∷ [])) ≡ length p + 1 = length-append p (x ∷ []) in
    let short : (length (p ++ (x ∷ [])) == 64) ≡ false = ground arith in
    rw short (
      absorb-few w (p ++ (x ∷ [])) xs (omega arith) ∙ ap (λ l. (w, l)) (append_assoc p (x ∷ []) xs))

-- Just enough bytes make a block.
pub absorb-full :
    (w : Words) (p xs : Bytes)
    → length p < 64
    → length p + length xs ≡ 64
    → absorb (w, p) xs ≡ (transform w (p ++ xs), [])
unfolding absorb
absorb-full w p [] h e = absurd (omega arith)
absorb-full w p (x ∷ []) h e =
    let n : length (p ++ (x ∷ [])) ≡ length p + 1 = length-append p (x ∷ []) in
    let full : (length (p ++ (x ∷ [])) == 64) ≡ true = ground arith in rw full refl
absorb-full w p (x ∷ y ∷ xs) h e =
    let n : length (p ++ (x ∷ [])) ≡ length p + 1 = length-append p (x ∷ []) in
    let short : (length (p ++ (x ∷ [])) == 64) ≡ false = ground arith in
    rw short (
      absorb-full w (p ++ (x ∷ [])) (y ∷ xs) (omega arith) (omega arith)
      ∙ ap (λ l. (transform w l, [])) (append_assoc p (x ∷ []) (y ∷ xs)))

absorb-block :
    (w : Words) (xs : Bytes)
    → 64 ≤ length xs
    → absorb (w, []) xs ≡ absorb (transform w (take 64 xs), []) (drop 64 xs)
absorb-block w xs h =
    ap (absorb (w, [])) (sym (append-take 64 xs))
    ∙ absorb-append (w, []) (take 64 xs) (drop 64 xs)
    ∙ ap (λ v. absorb v (drop 64 xs))
        (absorb-full w [] (take 64 xs) (omega arith) (omega (arith, length-take 64 xs h)))

-- The loop over whole blocks takes in all that it is given, and leaves less than a block. The index
-- is `b` bytes short of the end of the block with number `c`; that many bytes and the input together
-- are fewer than 2^32, so the test of the loop does not wrap.
pub absorb-blocks :
    (n b c at : ℕ) (w : Words) (xs : Bytes)
    → length xs ≤ n
    → b + at ≡ 64 * c
    → b + (at + length xs) < 2 ^ 32
    → let v = blocks n at (at + length xs) w xs in
      (absorb (w, []) xs ≡ v) × (length v.1 ≡ length xs % 64)
unfolding blocks
absorb-blocks zero b c at w xs h e small = (absorb-few w [] xs (omega arith), omega arith)
absorb-blocks (suc n) b c at w xs h e small =
    let sum : (at + 63) % 2 ^ 32 ≡ at + 63 = omega arith in
    if_both (λ v. (absorb (w, []) xs ≡ v) × (length v.1 ≡ length xs % 64))
      (ltb ((at + 63) % 2 ^ 32) (at + length xs)) _ (w, xs)
      (λ t.
        let size : 64 ≤ length xs = ground arith in
        let less = length-drop 64 xs in
        let next : (at + 64) % 2 ^ 32 ≡ at + 64 = omega arith in
        let whole : at + length xs ≡ at + 64 + length (drop 64 xs) = omega arith in
        let (same, rest) =
          absorb-blocks n b (c + 1) (at + 64) (transform w (take 64 xs)) (drop 64 xs) (omega arith)
            (omega arith) (omega arith) in
        rw (next, whole) (absorb-block w xs size ∙ same, omega arith))
      (λ t.
        let size : length xs < 64 = ground arith in (absorb-few w [] xs (omega arith), omega arith))
