-- ===== src/Examples/Digests.antt =====
-- The digest at concrete inputs.
use ad_manager.Base.{◌≡◌, refl, false, List, [], ◌∷◌, ◌++◌, arith}
use ad_manager.Wire.{Bytes, text}
use ad_manager.Md5.Transform.{calls, mix, rotate_left, transform, encode, words}
use ad_manager.Md5.Ops.{Md5, init, update, finalize, hex_digest, hex_of, padding, zeros, blocks}
use ad_manager.Md5.Absorb.{absorb}
use ad_manager.Md5.Stream.{IsOpen, view}
use ad_manager.Md5.Count.{bits, update-update}
use ad_manager.Md5.Reads.{file_digest, stream_digest, digest_in_blocks}
use ad_manager.Md5.Digest.{hex_digest_of, hex_digest_of_lem, pad}

-- The digest of the empty file.
hex_digest_of_empty : hex_digest_of (zeros 64) [] [] ≡ text "d41d8cd98f00b204e9800998ecf8427e"
unfolding hex_digest_of init update finalize hex_digest blocks transform calls mix rotate_left
    padding
hex_digest_of_empty = refl

-- The digest of a file that holds the letters abc.
hex_digest_of_abc :
    hex_digest_of (zeros 64) [] (text "abc") ≡ text "900150983cd24fb0d6963f7d28e17f72"
unfolding hex_digest_of init update finalize hex_digest blocks transform calls mix rotate_left
    padding
hex_digest_of_abc = refl

-- A digest with five bytes taken in.
abbrev begun : Md5
begun = record {
  state = record { a = 0x67452301; b = 0xefcdab89; c = 0x98badcfe; d = 0x10325476 };
  count_low = 40;
  count_high = 0;
  buffer = 1 ∷ 2 ∷ 3 ∷ 4 ∷ 5 ∷ zeros 59;
  digest = [];
  finalized = false;
}

begun-IsOpen : IsOpen begun
begun-IsOpen = record {
  open_still = refl;
  buffer_size = refl;
  low_word = omega arith;
  high_word = omega arith;
  whole_bytes = refl;
}

update-update_example :
    (view (update (zeros 9) (update (zeros 60) begun)) ≡ view (update (zeros 60 ++ zeros 9) begun))
    × (bits (update (zeros 9) (update (zeros 60) begun))
        ≡ bits (update (zeros 60 ++ zeros 9) begun))
update-update_example = update-update begun (zeros 60) (zeros 9) begun-IsOpen (omega arith)

hex_digest_of_lem_example :
    hex_digest_of (zeros 64) [] (text "abc")
    ≡ hex_of (encode (words (absorb ((init [] []).state, []) (text "abc" ++ pad 3)).0))
hex_digest_of_lem_example = hex_digest_of_lem (zeros 64) [] (text "abc") refl (omega arith)

-- Two reads of a file, then one that gives nothing, behind which a stream goes on.
abbrev pieces : List Bytes
pieces = text "ab" ∷ text "c" ∷ [] ∷ text "d" ∷ []

digest_in_blocks_example :
    (hex_digest (stream_digest (zeros 64) [] pieces) ≡ hex_digest_of (zeros 64) [] (text "abcd"))
    × (hex_digest (file_digest (zeros 64) [] pieces) ≡ hex_digest_of (zeros 64) [] (text "abc"))
digest_in_blocks_example = digest_in_blocks (zeros 64) [] pieces refl (omega arith) (omega arith)
