-- ===== src/Proto/PlayTime/Sizes.antt =====
-- How many bytes the class PlayTime of ad/AdPlayPolicy.pb.cc writes, against its ByteSizeLong.
use ad_manager.Base.{◌≡◌, arith, length}
use ad_manager.Message.Runtime.{Runtime, IsRuntime}
use ad_manager.Proto.Types.{PlayTime}
use ad_manager.Proto.Writable.{IsPlayTime}
use ad_manager.Proto.Sizes.{◌next◌, string_field-Takes}
use ad_manager.Proto.PlayTime

module _ (r : Runtime) (laws : IsRuntime r) where
  open laws use {tag_size as one_byte, tag_size_two as two_bytes}

  pub length-serialize_play_time :
      (m : PlayTime)
      → IsPlayTime r m
      → length (PlayTime.serialize r m) ≡ PlayTime.byte_size_long r m
  unfolding PlayTime.serialize PlayTime.byte_size_long
  length-serialize_play_time m ok =
      let written =
        string_field-Takes r laws 10 1 (one_byte 10 (omega arith)) m.bgn_time (ok.bgn_time_text).1
        next string_field-Takes r laws 18 1 (one_byte 18 (omega arith)) m.end_time
            (ok.end_time_text).1 in
      omega (arith, written.size)
