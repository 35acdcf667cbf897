-- ===== src/Md5/Reads.antt =====
-- The digest of a file or a stream that is read in blocks, and the bytes of a digest (md5.cc). A file is
-- given by what the calls of fread give, up to the one that gives nothing; a stream by what its reads
-- give while it is good.
use ad_manager.Base.{
  ◌+◌, ◌*◌, ◌%◌, ◌^◌, ◌<◌, ◌≡◌, refl, sym, ap, ◌∙◌, List, [], ◌∷◌, ◌++◌, arith, if◌then◌else◌,
  length, length-append,
}
use ad_manager.Wire.{Bytes}
use ad_manager.Md5.Transform.{encode, words}
use ad_manager.Md5.Ops.{buffer_index, Md5, init, update, finalize, hex_digest, hex_of}
use ad_manager.Md5.Absorb.{absorb, absorb-append}
use ad_manager.Md5.Stream.{IsOpen, view, view-update}
use ad_manager.Md5.Count.{index-update, bits, update-IsOpen, bits-update}
use ad_manager.Md5.Digest.{
  init-room, hex_digest_of, init-IsOpen, hex_digest-finalize, finalize-view,
}

-- The loop over a file, which ends when nothing is read.
unfoldable pub update_file : List Bytes → Md5 → Md5
update_file [] m = m
update_file ([] ∷ rs) m = m
update_file ((b ∷ bs) ∷ rs) m = update_file rs (update (b ∷ bs) m)

-- The loop over a stream takes in every read, an empty one too.
unfoldable pub update_stream : List Bytes → Md5 → Md5
update_stream [] m = m
update_stream (r ∷ rs) m = update_stream rs (update r m)

-- The constructors.
unfoldable pub file_digest : Bytes → Bytes → List Bytes → Md5
unfolding init update_file finalize
file_digest buffer digest rs = finalize (update_file rs (init buffer digest))

unfoldable pub stream_digest : Bytes → Bytes → List Bytes → Md5
unfolding init update_stream finalize
stream_digest buffer digest rs = finalize (update_stream rs (init buffer digest))

unfoldable pub raw_digest : Md5 → Bytes
raw_digest m = if m.finalized then m.digest else []

-- What the reads give together.
abbrev pub all_read : List Bytes → Bytes
all_read [] = []
all_read (r ∷ rs) = r ++ all_read rs

abbrev pub file_read : List Bytes → Bytes
file_read [] = []
file_read ([] ∷ rs) = []
file_read ((b ∷ bs) ∷ rs) = (b ∷ bs) ++ file_read rs

-- The second digest is the first one that has taken in the bytes.
abbrev Took : Md5 → Md5 → Bytes → Type 0
Took m n xs =
    IsOpen n × (view n ≡ absorb (view m) xs) × (bits n ≡ (bits m + 8 * length xs) % 2 ^ 64)

Took-none : (m : Md5) → IsOpen m → Took m m []
unfolding absorb
Took-none m ok = (ok, refl, omega (arith, ok.low_word, ok.high_word))

Took-update :
    (m n : Md5) (xs ys : Bytes)
    → IsOpen m
    → buffer_index m + (length xs + length ys) < 2 ^ 32
    → Took (update xs m) n ys
    → Took m n (xs ++ ys)
Took-update m n xs ys ok h (open_n, seen, counted) = (
  open_n,
  seen
      ∙ ap (λ v. absorb v ys) (view-update m xs ok (omega arith))
      ∙ sym (absorb-append (view m) xs ys),
  omega (arith, bits-update m xs ok (omega arith), length-append xs ys),
)

update_stream-Took :
    (rs : List Bytes) (m : Md5)
    → IsOpen m
    → buffer_index m + length (all_read rs) < 2 ^ 32
    → Took m (update_stream rs m) (all_read rs)
unfolding update_stream
update_stream-Took [] m ok h = Took-none m ok
update_stream-Took (r ∷ rs) m ok h =
    let n = length-append r (all_read rs) in
    let waiting = index-update m r ok (omega arith) in
    Took-update m (update_stream rs (update r m)) r (all_read rs) ok (omega arith)
      (update_stream-Took rs (update r m) (update-IsOpen m r ok (omega arith)) (omega arith))

update_file-Took :
    (rs : List Bytes) (m : Md5)
    → IsOpen m
    → buffer_index m + length (file_read rs) < 2 ^ 32
    → Took m (update_file rs m) (file_read rs)
unfolding update_file
update_file-Took [] m ok h = Took-none m ok
update_file-Took ([] ∷ rs) m ok h = Took-none m ok
update_file-Took ((b ∷ bs) ∷ rs) m ok h =
    let r = b ∷ bs in
    let n = length-append r (file_read rs) in
    let waiting = index-update m r ok (omega arith) in
    Took-update m (update_file rs (update r m)) r (file_read rs) ok (omega arith)
      (update_file-Took rs (update r m) (update-IsOpen m r ok (omega arith)) (omega arith))

-- What is taken in decides the digest.
hex_digest-finalize_same :
    (m n : Md5)
    → IsOpen m
    → IsOpen n
    → view m ≡ view n
    → bits m ≡ bits n
    → hex_digest (finalize m) ≡ hex_digest (finalize n)
hex_digest-finalize_same m n ok ok' same even =
    let low : m.count_low ≡ n.count_low =
      omega (arith, ok.low_word, ok.high_word, ok'.low_word, ok'.high_word) in
    let high : m.count_high ≡ n.count_high =
      omega (arith, ok.low_word, ok.high_word, ok'.low_word, ok'.high_word) in
    hex_digest-finalize m ok.open_still
    ∙ ap (λ v. hex_of (encode (words v.0)))
        (finalize-view m ok ∙ rw (same, low, high) refl ∙ sym (finalize-view n ok'))
    ∙ sym (hex_digest-finalize n ok'.open_still)

Took-digest :
    (buffer digest body : Bytes) (n : Md5)
    → length buffer ≡ 64
    → length body < 2 ^ 32
    → Took (init buffer digest) n body
    → hex_digest (finalize n) ≡ hex_digest_of buffer digest body
unfolding hex_digest_of
Took-digest buffer digest body n size h (open_n, seen, counted) =
    let m = init buffer digest in
    let ok = init-IsOpen buffer digest size in
    hex_digest-finalize_same n (update body m) open_n
      (update-IsOpen m body ok (init-room buffer digest body h))
      (seen ∙ sym (view-update m body ok (init-room buffer digest body h)))
      (counted ∙ sym (bits-update m body ok h))

-- With a buffer of 64 bytes, the digest of a file or of a stream, of fewer than 2^32 bytes, is that of
-- what its reads give together, however long each of them is: for a file up to the first that gives
-- nothing, for a stream over all of them.
pub digest_in_blocks :
    (buffer digest : Bytes) (rs : List Bytes)
    → length buffer ≡ 64
    → length (all_read rs) < 2 ^ 32
    → length (file_read rs) < 2 ^ 32
    → (hex_digest (stream_digest buffer digest rs) ≡ hex_digest_of buffer digest (all_read rs))
      × (hex_digest (file_digest buffer digest rs) ≡ hex_digest_of buffer digest (file_read rs))
unfolding stream_digest file_digest
digest_in_blocks buffer digest rs size h h' =
    let m = init buffer digest in
    let ok = init-IsOpen buffer digest size in
    (
      Took-digest buffer digest (all_read rs) (update_stream rs m) size h
          (update_stream-Took rs m ok (init-room buffer digest (all_read rs) h)),
      Took-digest buffer digest (file_read rs) (update_file rs m) size h'
          (update_file-Took rs m ok (init-room buffer digest (file_read rs) h')),
    )
