-- ===== src/Proto/AdPlay/Sizes.antt =====
-- How many bytes the class AdPlay of ad/AdPlayPolicy.pb.cc writes, against its ByteSizeLong.
use ad_manager.Base.{◌≡◌, arith, length, All-map}
use ad_manager.Message.Runtime.{Runtime, IsRuntime}
use ad_manager.Proto.Types.{AdPlay}
use ad_manager.Proto.Writable.{IsAdPlay}
use ad_manager.Proto.Sizes.{
  ◌next◌, int32_field-Takes, bool_field-Takes, messages-Takes, packed_field-Takes,
}
use ad_manager.Proto.AdPlay
use ad_manager.Proto.PlayTime
use ad_manager.Proto.PlayTime.Sizes.{length-serialize_play_time}

module _ (r : Runtime) (laws : IsRuntime r) where
  open laws use {tag_size as one_byte, tag_size_two as two_bytes}

  pub length-serialize_ad_play :
      (m : AdPlay) → IsAdPlay r m → length (AdPlay.serialize r m) ≡ AdPlay.byte_size_long r m
  unfolding AdPlay.serialize AdPlay.byte_size_long
  length-serialize_ad_play m ok =
      let written =
        int32_field-Takes r laws 8 1 (one_byte 8 (omega arith)) m.location ok.location_range
        next int32_field-Takes r laws 16 1 (one_byte 16 (omega arith)) m.mode ok.mode_range
        next bool_field-Takes r laws 24 1 (one_byte 24 (omega arith)) m.need_sync
        next messages-Takes r laws 34 1 (one_byte 34 (omega arith)) (PlayTime.serialize r)
            (PlayTime.byte_size_long r) m.play_times
            (All-map (λ v (w, small). (length-serialize_play_time r laws v w, small)) m.play_times
              ok.play_times_fit)
        next packed_field-Takes r laws 42 1 (one_byte 42 (omega arith)) m.ad_ids ok.ad_ids_range
            ok.ad_ids_size in
      omega (arith, written.size)
