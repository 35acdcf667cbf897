-- ===== src/Proto/AdPlay.antt =====
-- ad/AdPlayPolicy.pb.cc: the class AdPlay: Clear, MergePartialFromCodedStream, SerializeWithCachedSizes,
-- ByteSizeLong and MergeFrom.
use ad_manager.Base.{
  ℕ, ◌+◌, refl, Bool, true, false, Option, List, [], ◌++◌, ◌==◌, if◌then◌else◌, ℤ, pos, is_zero,
}
use ad_manager.Wire.{Bytes}
use ad_manager.Message.Runtime.{Runtime}
use ad_manager.Message.Generated.{int32_field}
use ad_manager.Proto.Types.{AdPlay, PlayTime}
use ad_manager.Proto.Loop.{Case, untaken, parse_into}
use ad_manager.Proto.Fields.{
  Lens, int32_case, bool_case, packed_case, single_case, message_case, bool_field, repeated_field,
  packed_field, int32_bytes, bool_bytes, messages_bytes, packed_bytes,
}
use ad_manager.Proto.PlayTime
pub mod RoundTrip
pub mod Sizes

-- A message that was cleared.
abbrev pub clear : AdPlay
clear = record { location = pos 0; mode = pos 0; need_sync = false; play_times = []; ad_ids = [] }

abbrev pub location_lens : Lens AdPlay ℤ
location_lens = record {
  get = λ m. m.location;
  set = λ v m. record m { location = v };
  set-get = λ m. refl;
  get-set = λ v m. refl;
  set-set = λ v w m. refl;
}

abbrev pub mode_lens : Lens AdPlay ℤ
mode_lens = record {
  get = λ m. m.mode;
  set = λ v m. record m { mode = v };
  set-get = λ m. refl;
  get-set = λ v m. refl;
  set-set = λ v w m. refl;
}

abbrev pub need_sync_lens : Lens AdPlay Bool
need_sync_lens = record {
  get = λ m. m.need_sync;
  set = λ v m. record m { need_sync = v };
  set-get = λ m. refl;
  get-set = λ v m. refl;
  set-set = λ v w m. refl;
}

abbrev pub play_times_lens : Lens AdPlay (List PlayTime)
play_times_lens = record {
  get = λ m. m.play_times;
  set = λ v m. record m { play_times = v };
  set-get = λ m. refl;
  get-set = λ v m. refl;
  set-set = λ v w m. refl;
}

abbrev pub ad_ids_lens : Lens AdPlay (List ℤ)
ad_ids_lens = record {
  get = λ m. m.ad_ids;
  set = λ v m. record m { ad_ids = v };
  set-get = λ m. refl;
  get-set = λ v m. refl;
  set-set = λ v w m. refl;
}

unfoldable pub merge_from : AdPlay → AdPlay → AdPlay
merge_from a b = record {
  location = if is_zero b.location then a.location else b.location;
  mode = if is_zero b.mode then a.mode else b.mode;
  need_sync = if b.need_sync then true else a.need_sync;
  play_times = a.play_times ++ b.play_times;
  ad_ids = a.ad_ids ++ b.ad_ids;
}

module _ (r : Runtime) where
  unfoldable pub serialize : AdPlay → Bytes
  unfolding PlayTime.serialize
  serialize m =
      int32_field r 8 m.location
      ++ (int32_field r 16 m.mode
          ++ (bool_field r 24 m.need_sync
              ++ (repeated_field r 34 (PlayTime.serialize r) m.play_times
                  ++ (packed_field r 42 m.ad_ids))))

  unfoldable pub byte_size_long : AdPlay → ℕ
  unfolding PlayTime.byte_size_long
  byte_size_long m =
      messages_bytes r 1 (PlayTime.byte_size_long r) m.play_times
      + packed_bytes r 1 m.ad_ids
      + int32_bytes r 1 m.location
      + int32_bytes r 1 m.mode
      + bool_bytes r 1 m.need_sync

  -- The switch. A case is taken by its field number and left for handle_unusual unless the tag is
  -- the expected one, so the tag alone decides.
  unfoldable pub switch : ℕ → AdPlay → Bytes → Case AdPlay
  unfolding PlayTime.parse
  switch tag m b =
      if tag == 8
      then int32_case r location_lens m b
      else if tag == 16
      then int32_case r mode_lens m b
      else if tag == 24
      then bool_case r need_sync_lens m b
      else if tag == 34
      then message_case r (PlayTime.parse r) play_times_lens m b
      else if tag == 42
      then packed_case r ad_ids_lens m b
      else if tag == 40
      then single_case r 42 ad_ids_lens m b
      else untaken

  unfoldable pub parse : Bytes → Option AdPlay
  unfolding switch
  parse b = parse_into r switch clear b
