-- ===== src/Md5/Encoding.antt =====
-- encode and decode of words as bytes (md5.cc).
use ad_manager.Base.{ℕ, ◌+◌, ◌*◌, ◌/◌, ◌%◌, ◌^◌, ◌<◌, ◌≡◌, refl, List, [], ◌∷◌, arith, All}
use ad_manager.Md5.Transform.{encode, decode}

-- Words below 2^32 that are encoded as bytes decode to themselves.
decode-encode : (ws : List ℕ) → All (λ w. w < 2 ^ 32) ws → decode (encode ws) ≡ ws
decode-encode [] small = refl
decode-encode (w ∷ ws) small =
    let word : w % 256
          + 256 * (w / 256 % 256)
          + 65536 * (w / 65536 % 256)
          + 16777216 * (w / 16777216 % 256)
        ≡ w =
      omega (arith, small.0) in
    rw (decode-encode ws small.1, word) refl
