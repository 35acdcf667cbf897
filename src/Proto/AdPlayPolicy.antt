-- ===== src/Proto/AdPlayPolicy.antt =====
-- ad/AdPlayPolicy.pb.cc: the class AdPlayPolicy: Clear, MergePartialFromCodedStream, SerializeWithCachedSizes,
-- ByteSizeLong and MergeFrom.
use ad_manager.Base.{
  ℕ, ◌+◌, refl, Option, List, [], ◌++◌, ◌==◌, if◌then◌else◌, is_empty, ℤ, pos, is_zero,
}
use ad_manager.Wire.{Bytes}
use ad_manager.Message.Runtime.{Runtime}
use ad_manager.Message.Generated.{int32_field, string_field}
use ad_manager.Proto.Types.{AdPlayPolicy, AdPlay}
use ad_manager.Proto.Loop.{Case, untaken, parse_into}
use ad_manager.Proto.Fields.{
  Lens, int32_case, text_case, message_case, repeated_field, int32_bytes, string_bytes,
  messages_bytes,
}
use ad_manager.Proto.AdPlay
pub mod RoundTrip
pub mod Sizes

-- A message that was cleared.
abbrev pub clear : AdPlayPolicy
clear = record { id = pos 0; version = []; date_time = []; ad_plays = [] }

abbrev pub id_lens : Lens AdPlayPolicy ℤ
id_lens = record {
  get = λ m. m.id;
  set = λ v m. record m { id = v };
  set-get = λ m. refl;
  get-set = λ v m. refl;
  set-set = λ v w m. refl;
}

abbrev pub version_lens : Lens AdPlayPolicy Bytes
version_lens = record {
  get = λ m. m.version;
  set = λ v m. record m { version = v };
  set-get = λ m. refl;
  get-set = λ v m. refl;
  set-set = λ v w m. refl;
}

abbrev pub date_time_lens : Lens AdPlayPolicy Bytes
date_time_lens = record {
  get = λ m. m.date_time;
  set = λ v m. record m { date_time = v };
  set-get = λ m. refl;
  get-set = λ v m. refl;
  set-set = λ v w m. refl;
}

abbrev pub ad_plays_lens : Lens AdPlayPolicy (List AdPlay)
ad_plays_lens = record {
  get = λ m. m.ad_plays;
  set = λ v m. record m { ad_plays = v };
  set-get = λ m. refl;
  get-set = λ v m. refl;
  set-set = λ v w m. refl;
}

unfoldable pub merge_from : AdPlayPolicy → AdPlayPolicy → AdPlayPolicy
merge_from a b = record {
  id = if is_zero b.id then a.id else b.id;
  version = if is_empty b.version then a.version else b.version;
  date_time = if is_empty b.date_time then a.date_time else b.date_time;
  ad_plays = a.ad_plays ++ b.ad_plays;
}

module _ (r : Runtime) where
  unfoldable pub serialize : AdPlayPolicy → Bytes
  unfolding AdPlay.serialize
  serialize m =
      int32_field r 8 m.id
      ++ (string_field r 18 m.version
          ++ (string_field r 26 m.date_time
              ++ (repeated_field r 34 (AdPlay.serialize r) m.ad_plays)))

  unfoldable pub byte_size_long : AdPlayPolicy → ℕ
  unfolding AdPlay.byte_size_long
  byte_size_long m =
      messages_bytes r 1 (AdPlay.byte_size_long r) m.ad_plays
      + string_bytes r 1 m.version
      + string_bytes r 1 m.date_time
      + int32_bytes r 1 m.id

  -- The switch. A case is taken by its field number and left for handle_unusual unless the tag is
  -- the expected one, so the tag alone decides.
  unfoldable pub switch : ℕ → AdPlayPolicy → Bytes → Case AdPlayPolicy
  unfolding AdPlay.parse
  switch tag m b =
      if tag == 8
      then int32_case r id_lens m b
      else if tag == 18
      then text_case r version_lens m b
      else if tag == 26
      then text_case r date_time_lens m b
      else if tag == 34
      then message_case r (AdPlay.parse r) ad_plays_lens m b
      else untaken

  unfoldable pub parse : Bytes → Option AdPlayPolicy
  unfolding switch
  parse b = parse_into r switch clear b
