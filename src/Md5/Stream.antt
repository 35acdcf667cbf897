-- ===== src/Md5/Stream.antt =====
-- MD5::update against the digest byte by byte (md5.cc).
use ad_manager.Base.{
  ℕ, ◌+◌, ◌-◌, ◌%◌, ◌^◌, ◌≤◌, ◌<◌, ◌≡◌, refl, sym, ap, ◌∙◌, false, [], ◌++◌, append-nil,
  append_assoc, arith, leb, if_both, length, length-append, take, drop, take-append, drop_all,
  append-take, length-take, length-drop,
}
use ad_manager.Wire.{Bytes}
use ad_manager.Md5.Transform.{Words, transform}
use ad_manager.Md5.Ops.{Md5, blocks, update, buffer_index, put, fill, add_count}
use ad_manager.Md5.Absorb.{View, absorb, absorb-append, absorb-few, absorb-full, absorb-blocks}

-- A digest that takes bytes: its buffer has its size, and its count of bits is one of bytes.
pub record IsOpen (m : Md5) : Type 0 where
  pub open_still : m.finalized ≡ false
  pub buffer_size : length m.buffer ≡ 64
  pub low_word : m.count_low < 2 ^ 32
  pub high_word : m.count_high < 2 ^ 32
  pub whole_bytes : m.count_low % 8 ≡ 0

-- The state, and the bytes of the buffer that count.
abbrev pub view : Md5 → View
view m = (m.state, take (buffer_index m) m.buffer)

pub index-add_count :
    (n : ℕ) (m : Md5)
    → IsOpen m
    → n < 2 ^ 32
    → buffer_index (add_count n m) ≡ (buffer_index m + n) % 64
index-add_count n m ok h = omega (arith, ok.low_word, ok.whole_bytes)

take-prefix : (n : ℕ) (p q : Bytes) → length p ≡ n → take n (p ++ q) ≡ p
take-prefix n p q e = rw (sym e) (take-append p q)

pub length-put :
    (at : ℕ) (input old : Bytes)
    → at + length input ≤ length old
    → length (put at input old) ≡ length old
length-put at input old h = omega (
  arith,
  length-append (take at old) (input ++ drop (at + length input) old),
  length-append input (drop (at + length input) old),
  length-take at old,
  length-drop (at + length input) old,
)

-- A buffer that has room takes the input behind the bytes that wait.
take-put :
    (at : ℕ) (input old : Bytes)
    → at ≤ length old
    → take (at + length input) (put at input old) ≡ take at old ++ input
take-put at input old h =
    ap (take (at + length input))
      (sym (append_assoc (take at old) input (drop (at + length input) old)))
    ∙ take-prefix (at + length input) (take at old ++ input) (drop (at + length input) old)
        (omega (arith, length-append (take at old) input, length-take at old h))

-- Input that reaches the end of a buffer leaves nothing of the old bytes behind it.
put-full :
    (at : ℕ) (input old : Bytes)
    → at + length input ≡ length old
    → put at input old ≡ take at old ++ input
put-full at input old e = rw (e, drop_all old, append-nil input) refl

few-view :
    (m : Md5) (input : Bytes)
    → IsOpen m
    → buffer_index m + length input < 64
    → view (record (add_count (length input) m) { buffer = put (buffer_index m) input m.buffer })
      ≡ absorb (view m) input
few-view m input ok h =
    let at = buffer_index m in
    let next : buffer_index (add_count (length input) m) ≡ at + length input =
      omega (arith, index-add_count (length input) m ok (omega arith)) in
    let size : length (take at m.buffer) ≡ at =
      length-take at m.buffer (omega (arith, ok.buffer_size)) in
    rw (next, take-put at input m.buffer (omega (arith, ok.buffer_size)))
      (sym (absorb-few m.state (take at m.buffer) input (omega (arith, size))))

-- Input that reaches the end of the buffer completes the block that has begun.
absorb-begun :
    (w : Words) (old : Bytes) (at : ℕ) (input : Bytes)
    → length old ≡ 64
    → at < 64
    → 64 - at ≤ length input
    → absorb (w, take at old) input
      ≡ absorb (transform w (put at (take (64 - at) input) old), []) (drop (64 - at) input)
absorb-begun w old at input size lt h =
    let p = take at old in
    let q = take (64 - at) input in
    let p_size : length p ≡ at = length-take at old (omega arith) in
    let q_size : length q ≡ 64 - at = length-take (64 - at) input h in
    ap (absorb (w, p)) (sym (append-take (64 - at) input))
    ∙ absorb-append (w, p) q (drop (64 - at) input)
    ∙ ap (λ v. absorb v (drop (64 - at) input)) (absorb-full w p q (omega arith) (omega arith))
    ∙ ap (λ b. absorb (transform w b, []) (drop (64 - at) input))
        (sym (put-full at q old (omega arith)))

-- What the loop over whole blocks does behind a buffer that was filled.
pub blocks-fill :
    (at : ℕ) (w : Words) (input : Bytes)
    → at < 64
    → 64 - at ≤ length input
    → at + length input < 2 ^ 32
    → let more = drop (64 - at) input in
      let v = blocks (length more) (64 - at) (length input) w more in
      (absorb (w, []) more ≡ v) × (length v.1 ≡ length more % 64)
blocks-fill at w input lt h small =
    let more = drop (64 - at) input in
    let whole : length input ≡ 64 - at + length more = omega (arith, length-drop (64 - at) input) in
    rw whole
      (absorb-blocks (length more) at 1 (64 - at) w more (omega arith) (omega arith) (omega arith))

fill-next :
    (at : ℕ) (w : Words) (full input : Bytes) (next : ℕ)
    → at < 64
    → 64 - at ≤ length input
    → at + length input < 2 ^ 32
    → next ≡ length (drop (64 - at) input) % 64
    → let more = drop (64 - at) input in
      let (v, rest) = blocks (length more) (64 - at) (length input) w more in
      (v, take next (put 0 rest full)) ≡ absorb (w, []) more
fill-next at w full input next lt h small e =
    let more = drop (64 - at) input in
    let (v, rest) = blocks (length more) (64 - at) (length input) w more in
    let (same, size) = blocks-fill at w input lt h small in
    ap (λ l. (v, l)) (take-prefix next rest (drop (0 + length rest) full) (size ∙ sym e)) ∙ sym same

fill-view :
    (m : Md5) (input : Bytes)
    → IsOpen m
    → buffer_index m + length input < 2 ^ 32
    → 64 - buffer_index m ≤ length input
    → view (fill input (buffer_index m) (add_count (length input) m)) ≡ absorb (view m) input
fill-view m input ok small h =
    let at = buffer_index m in
    let more = drop (64 - at) input in
    fill-next at (transform m.state (put at (take (64 - at) input) m.buffer)) _ input
      (buffer_index (add_count (length input) m)) (omega arith) h small
      (omega
        (arith, index-add_count (length input) m ok (omega arith), length-drop (64 - at) input))
    ∙ sym (absorb-begun m.state m.buffer at input ok.buffer_size (omega arith) h)

-- Whatever is taken in, in one piece that makes fewer than 2^32 bytes with those that wait, the state is that over the whole
-- blocks, byte by byte, and the buffer holds the bytes of the block that has begun.
pub view-update :
    (m : Md5) (input : Bytes)
    → IsOpen m
    → buffer_index m + length input < 2 ^ 32
    → view (update input m) ≡ absorb (view m) input
unfolding update
view-update m input ok small =
    let P = λ (x : Md5). view x ≡ absorb (view m) input in
    if_both P m.finalized m _ (λ e. absurd (ground arith))
      (λ e.
        if_both P (leb (64 - buffer_index m) (length input)) _ _
          (λ enough. fill-view m input ok small (ground arith))
          (λ few. few-view m input ok (ground arith)))
