-- ===== src/Proto/Result.antt =====
-- ad/AdPlayPolicy.pb.cc: the class Result: Clear, MergePartialFromCodedStream, SerializeWithCachedSizes,
-- ByteSizeLong and MergeFrom.
use ad_manager.Base.{ℕ, refl, Option, List, [], ◌++◌, ◌==◌, if◌then◌else◌}
use ad_manager.Wire.{Bytes}
use ad_manager.Message.Runtime.{Runtime}
use ad_manager.Proto.Types.{Result, Ad}
use ad_manager.Proto.Loop.{Case, untaken, parse_into}
use ad_manager.Proto.Fields.{Lens, message_case, repeated_field, messages_bytes}
use ad_manager.Proto.Ad
pub mod RoundTrip
pub mod Sizes

-- A message that was cleared.
abbrev pub clear : Result
clear = record { ads = [] }

abbrev pub ads_lens : Lens Result (List Ad)
ads_lens = record {
  get = λ m. m.ads;
  set = λ v m. record m { ads = v };
  set-get = λ m. refl;
  get-set = λ v m. refl;
  set-set = λ v w m. refl;
}

unfoldable pub merge_from : Result → Result → Result
merge_from a b = record { ads = a.ads ++ b.ads }

module _ (r : Runtime) where
  unfoldable pub serialize : Result → Bytes
  unfolding Ad.serialize
  serialize m = repeated_field r 10 (Ad.serialize r) m.ads

  unfoldable pub byte_size_long : Result → ℕ
  unfolding Ad.byte_size_long
  byte_size_long m = messages_bytes r 1 (Ad.byte_size_long r) m.ads

  -- The switch. A case is taken by its field number and left for handle_unusual unless the tag is
  -- the expected one, so the tag alone decides.
  unfoldable pub switch : ℕ → Result → Bytes → Case Result
  unfolding Ad.parse
  switch tag m b = if tag == 10 then message_case r (Ad.parse r) ads_lens m b else untaken

  unfoldable pub parse : Bytes → Option Result
  unfolding switch
  parse b = parse_into r switch clear b
