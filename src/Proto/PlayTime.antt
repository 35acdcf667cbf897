-- ===== src/Proto/PlayTime.antt =====
-- ad/AdPlayPolicy.pb.cc: the class PlayTime: Clear, MergePartialFromCodedStream, SerializeWithCachedSizes,
-- ByteSizeLong and MergeFrom.
use ad_manager.Base.{ℕ, ◌+◌, refl, Option, [], ◌++◌, ◌==◌, if◌then◌else◌, is_empty}
use ad_manager.Wire.{Bytes}
use ad_manager.Message.Runtime.{Runtime}
use ad_manager.Message.Generated.{string_field}
use ad_manager.Proto.Types.{PlayTime}
use ad_manager.Proto.Loop.{Case, untaken, parse_into}
use ad_manager.Proto.Fields.{Lens, text_case, string_bytes}
pub mod RoundTrip
pub mod Sizes

-- A message that was cleared.
abbrev pub clear : PlayTime
clear = record { bgn_time = []; end_time = [] }

abbrev pub bgn_time_lens : Lens PlayTime Bytes
bgn_time_lens = record {
  get = λ m. m.bgn_time;
  set = λ v m. record m { bgn_time = v };
  set-get = λ m. refl;
  get-set = λ v m. refl;
  set-set = λ v w m. refl;
}

abbrev pub end_time_lens : Lens PlayTime Bytes
end_time_lens = record {
  get = λ m. m.end_time;
  set = λ v m. record m { end_time = v };
  set-get = λ m. refl;
  get-set = λ v m. refl;
  set-set = λ v w m. refl;
}

unfoldable pub merge_from : PlayTime → PlayTime → PlayTime
merge_from a b = record {
  bgn_time = if is_empty b.bgn_time then a.bgn_time else b.bgn_time;
  end_time = if is_empty b.end_time then a.end_time else b.end_time;
}

module _ (r : Runtime) where
  unfoldable pub serialize : PlayTime → Bytes
  serialize m = string_field r 10 m.bgn_time ++ (string_field r 18 m.end_time)

  unfoldable pub byte_size_long : PlayTime → ℕ
  byte_size_long m = string_bytes r 1 m.bgn_time + string_bytes r 1 m.end_time

  -- The switch. A case is taken by its field number and left for handle_unusual unless the tag is
  -- the expected one, so the tag alone decides.
  unfoldable pub switch : ℕ → PlayTime → Bytes → Case PlayTime
  switch tag m b =
      if tag == 10
      then text_case r bgn_time_lens m b
      else if tag == 18
      then text_case r end_time_lens m b
      else untaken

  unfoldable pub parse : Bytes → Option PlayTime
  unfolding switch
  parse b = parse_into r switch clear b
