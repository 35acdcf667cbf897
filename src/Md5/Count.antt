-- ===== src/Md5/Count.antt =====
-- What MD5::update does to the count of bits and to the buffer's size, and a digest in pieces (md5.cc).
use ad_manager.Base.{
  ℕ, ◌+◌, ◌-◌, ◌*◌, ◌%◌, ◌^◌, ◌≤◌, ◌<◌, ◌≡◌, sym, ap, ◌∙◌, ◌++◌, arith, leb, if_both, length,
  length-append, take, drop, length-take,
}
use ad_manager.Wire.{Bytes}
use ad_manager.Md5.Transform.{transform}
use ad_manager.Md5.Ops.{Md5, blocks, update, buffer_index, put, fill, add_count}
use ad_manager.Md5.Absorb.{absorb, absorb-append}
use ad_manager.Md5.Stream.{blocks-fill, index-add_count, IsOpen, view, view-update, length-put}

-- The count of bits, of 64 bits itself.
abbrev pub bits : Md5 → ℕ
bits m = m.count_low + 2 ^ 32 * m.count_high

bits-add_count :
    (n : ℕ) (m : Md5) → IsOpen m → n < 2 ^ 32 → bits (add_count n m) ≡ (bits m + 8 * n) % 2 ^ 64
bits-add_count n m ok h = ground (arith, ok.low_word, ok.high_word)

fill-size :
    (m : Md5) (input : Bytes)
    → IsOpen m
    → 64 - buffer_index m ≤ length input
    → buffer_index m + length input < 2 ^ 32
    → length (fill input (buffer_index m) (add_count (length input) m)).buffer ≡ 64
fill-size m input ok h small =
    let at = buffer_index m in
    let full = put at (take (64 - at) input) m.buffer in
    let more = drop (64 - at) input in
    let q_size = length-take (64 - at) input h in
    let full_size : length full ≡ 64 =
      length-put at (take (64 - at) input) m.buffer (omega (arith, ok.buffer_size))
      ∙ ok.buffer_size in
    let rest_size = (blocks-fill at (transform m.state full) input (omega arith) h small).1 in
    length-put 0 (blocks (length more) (64 - at) (length input) (transform m.state full) more).1
      full (omega arith)
    ∙ full_size

pub update-IsOpen :
    (m : Md5) (input : Bytes)
    → IsOpen m
    → buffer_index m + length input < 2 ^ 32
    → IsOpen (update input m)
unfolding update
update-IsOpen m input ok h =
    if_both IsOpen m.finalized m _ (λ e. absurd (ground arith))
      (λ e.
        if_both IsOpen (leb (64 - buffer_index m) (length input)) _ _
          (λ enough. record {
            open_still = ok.open_still;
            buffer_size = fill-size m input ok (ground arith) h;
            low_word = omega arith;
            high_word = omega arith;
            whole_bytes = omega (arith, ok.whole_bytes);
          })
          (λ few. record {
            open_still = ok.open_still;
            buffer_size =
                length-put (buffer_index m) input m.buffer (ground (arith, ok.buffer_size))
                ∙ ok.buffer_size;
            low_word = omega arith;
            high_word = omega arith;
            whole_bytes = omega (arith, ok.whole_bytes);
          }))

pub bits-update :
    (m : Md5) (input : Bytes)
    → IsOpen m
    → length input < 2 ^ 32
    → bits (update input m) ≡ (bits m + 8 * length input) % 2 ^ 64
unfolding update
bits-update m input ok h =
    let P = λ (x : Md5). bits x ≡ (bits m + 8 * length input) % 2 ^ 64 in
    if_both P m.finalized m _ (λ e. absurd (ground arith))
      (λ e.
        if_both P (leb (64 - buffer_index m) (length input)) _ _
          (λ enough. bits-add_count (length input) m ok h)
          (λ few. bits-add_count (length input) m ok h))

-- The bytes that wait are no more than those before and the piece.
pub index-update :
    (m : Md5) (input : Bytes)
    → IsOpen m
    → length input < 2 ^ 32
    → buffer_index (update input m) ≤ buffer_index m + length input
unfolding update
index-update m input ok h =
    let P = λ (x : Md5). buffer_index x ≤ buffer_index m + length input in
    let next = index-add_count (length input) m ok h in
    if_both P m.finalized m _ (λ e. omega arith)
      (λ e.
        if_both P (leb (64 - buffer_index m) (length input)) _ _ (λ enough. omega arith)
          (λ few. omega arith))

-- For an open digest, two pieces that make fewer than 2^32 bytes with those that wait in the buffer
-- give what the whole gives in one: the same state, the same bytes of the block that has begun, and
-- the same count of bits.
pub update-update :
    (m : Md5) (xs ys : Bytes)
    → IsOpen m
    → buffer_index m + (length xs + length ys) < 2 ^ 32
    → (view (update ys (update xs m)) ≡ view (update (xs ++ ys) m))
      × (bits (update ys (update xs m)) ≡ bits (update (xs ++ ys) m))
update-update m xs ys ok h =
    let n = length-append xs ys in
    let ok' = update-IsOpen m xs ok (omega arith) in
    let waiting = index-update m xs ok (omega arith) in
    (
      view-update (update xs m) ys ok' (omega arith)
          ∙ ap (λ v. absorb v ys) (view-update m xs ok (omega arith))
          ∙ sym (absorb-append (view m) xs ys)
          ∙ sym (view-update m (xs ++ ys) ok (omega arith)),
      omega (
        arith,
        bits-update (update xs m) ys ok' (omega arith),
        bits-update m xs ok (omega arith),
        bits-update m (xs ++ ys) ok (omega arith),
      ),
    )
