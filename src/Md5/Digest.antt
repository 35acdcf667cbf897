-- ===== src/Md5/Digest.antt =====
-- The digest of a file: MD5::update, MD5::finalize and MD5::hex_digest as the program calls them
-- (AdManager.cpp, downloadAd), against the padding that the algorithm prescribes.
use ad_manager.Base.{
  ℕ, zero, suc, ◌+◌, ◌-◌, ◌*◌, ◌/◌, ◌%◌, ◌^◌, ◌<◌, ◌≡◌, refl, sym, ap, ◌∙◌, true, false, [], ◌∷◌,
  ◌++◌, arith, holds_up_to, test-holds_up_to, if_both, length, take,
}
use ad_manager.Wire.{Bytes, bytes_eq, bytes_eq→eq}
use ad_manager.Md5.Transform.{encode, words}
use ad_manager.Md5.Ops.{
  Md5, init, update, finalize, hex_digest, hex_of, padding, pad_len, zeros, buffer_index,
}
use ad_manager.Md5.Absorb.{absorb, absorb-append}
use ad_manager.Md5.Stream.{IsOpen, view, view-update}
use ad_manager.Md5.Count.{bits, update-IsOpen, bits-update}

-- `MD5 context; context.update(...); context.finalize(); context.hex_digest()`.
unfoldable pub hex_digest_of : Bytes → Bytes → Bytes → Bytes
unfolding init update finalize hex_digest
hex_digest_of buffer digest body = hex_digest (finalize (update body (init buffer digest)))

-- A message of the length is padded by a byte 0x80, then zeros up to 56 bytes modulo 64, and its
-- length in bits.
abbrev pub pad : ℕ → Bytes
pad n = 0x80 ∷ (zeros ((119 - n % 64) % 64) ++ encode (8 * n % 2 ^ 32 ∷ 8 * n / 2 ^ 32 ∷ []))

pub init-room :
    (buffer digest body : Bytes)
    → length body < 2 ^ 32
    → buffer_index (init buffer digest) + length body < 2 ^ 32
unfolding init
init-room buffer digest body small = omega arith

pub init-IsOpen : (buffer digest : Bytes) → length buffer ≡ 64 → IsOpen (init buffer digest)
unfolding init
init-IsOpen buffer digest h = record {
  open_still = refl;
  buffer_size = h;
  low_word = omega arith;
  high_word = omega arith;
  whole_bytes = refl;
}

padding-table :
    holds_up_to (λ i. bytes_eq (take (pad_len i) padding) (0x80 ∷ zeros ((119 - i) % 64))) 64 ≡ true
unfolding holds_up_to bytes_eq padding
padding-table = refl

take-padding : (i : ℕ) → i < 64 → take (pad_len i) padding ≡ 0x80 ∷ zeros ((119 - i) % 64)
take-padding i h = bytes_eq→eq _ _ (test-holds_up_to _ 64 i h padding-table)

length-zeros : (n : ℕ) → length (zeros n) ≡ n
length-zeros zero = refl
length-zeros (suc n) = omega (arith, length-zeros n)

-- The last bytes that `finalize` takes in.
abbrev pub tail_of : Md5 → Bytes
tail_of m = encode (m.count_low ∷ m.count_high ∷ [])

pub hex_digest-finalize :
    (m : Md5)
    → m.finalized ≡ false
    → hex_digest (finalize m)
      ≡ hex_of (
          encode
            (words (update (tail_of m) (update (take (pad_len (buffer_index m)) padding) m)).state))
unfolding finalize hex_digest
hex_digest-finalize m h =
    let n = update (tail_of m) (update (take (pad_len (buffer_index m)) padding) m) in
    if_both (λ (x : Md5). hex_digest x ≡ hex_of (encode (words n.state))) m.finalized m _
      (λ e. absurd (ground arith)) (λ e. refl)

-- What a digest that is open takes in when it is finalized.
pub finalize-view :
    (m : Md5)
    → IsOpen m
    → view (update (tail_of m) (update (take (pad_len (buffer_index m)) padding) m))
      ≡ absorb (view m) (0x80 ∷ (zeros ((119 - buffer_index m) % 64) ++ tail_of m))
finalize-view m ok =
    let i = buffer_index m in
    let p = 0x80 ∷ zeros ((119 - i) % 64) in
    let p_size = length-zeros ((119 - i) % 64) in
    let ok' = update-IsOpen m p ok (omega arith) in
    rw (take-padding i (omega arith)) (
      view-update (update p m) (tail_of m) ok' (omega arith)
      ∙ ap (λ v. absorb v (tail_of m)) (view-update m p ok (omega arith))
      ∙ sym (absorb-append (view m) p (tail_of m)))

pad-update :
    (buffer digest body : Bytes)
    → length buffer ≡ 64
    → length body < 2 ^ 32
    → let m = update body (init buffer digest) in
      0x80 ∷ (zeros ((119 - buffer_index m) % 64) ++ tail_of m) ≡ pad (length body)
pad-update buffer digest body h small =
    let m0 = init buffer digest in
    let m = update body m0 in
    let ok0 = init-IsOpen buffer digest h in
    let ok = update-IsOpen m0 body ok0 (init-room buffer digest body small) in
    let total : bits m ≡ 8 * length body =
      bits-update m0 body ok0 small ∙ unfold init in omega arith in
    let low : m.count_low ≡ 8 * length body % 2 ^ 32 = omega (arith, ok.low_word) in
    let high : m.count_high ≡ 8 * length body / 2 ^ 32 = omega (arith, ok.low_word) in
    let index : buffer_index m ≡ length body % 64 = omega arith in rw (index, low, high) refl

-- The digest that the program takes of a file of fewer than 2^32 bytes is that of the algorithm:
-- the file is padded by the byte 0x80, zeros up to 56 bytes modulo 64, and its length in bits, and
-- the whole is taken into the state block by block; the digest is the state in hexadecimal digits.
-- What the 64 bytes of the buffer and those of the digest held before has no part in it.
pub hex_digest_of_lem :
    (buffer digest body : Bytes)
    → length buffer ≡ 64
    → length body < 2 ^ 32
    → hex_digest_of buffer digest body
      ≡ hex_of (encode (words (absorb ((init [] []).state, []) (body ++ pad (length body))).0))
unfolding hex_digest_of
hex_digest_of_lem buffer digest body h small =
    let m0 = init buffer digest in
    let m = update body m0 in
    let ok0 = init-IsOpen buffer digest h in
    let ok = update-IsOpen m0 body ok0 (init-room buffer digest body small) in
    hex_digest-finalize m ok.open_still
    ∙ ap (λ v. hex_of (encode (words v.0)))
        (finalize-view m ok
          ∙ ap (absorb (view m)) (pad-update buffer digest body h small)
          ∙ ap (λ v. absorb v (pad (length body)))
              (view-update m0 body ok0 (init-room buffer digest body small))
          ∙ sym (absorb-append (view m0) body (pad (length body)))
          ∙ unfold init in refl)
