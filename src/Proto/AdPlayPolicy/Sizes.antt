-- ===== src/Proto/AdPlayPolicy/Sizes.antt =====
-- How many bytes the class AdPlayPolicy of ad/AdPlayPolicy.pb.cc writes, against its ByteSizeLong.
use ad_manager.Base.{◌≡◌, arith, length, All-map}
use ad_manager.Message.Runtime.{Runtime, IsRuntime}
use ad_manager.Proto.Types.{AdPlayPolicy}
use ad_manager.Proto.Writable.{IsAdPlayPolicy}
use ad_manager.Proto.Sizes.{◌next◌, int32_field-Takes, string_field-Takes, messages-Takes}
use ad_manager.Proto.AdPlayPolicy
use ad_manager.Proto.AdPlay
use ad_manager.Proto.AdPlay.Sizes.{length-serialize_ad_play}

module _ (r : Runtime) (laws : IsRuntime r) where
  open laws use {tag_size as one_byte, tag_size_two as two_bytes}

  length-serialize_policy :
      (m : AdPlayPolicy)
      → IsAdPlayPolicy r m
      → length (AdPlayPolicy.serialize r m) ≡ AdPlayPolicy.byte_size_long r m
  unfolding AdPlayPolicy.serialize AdPlayPolicy.byte_size_long
  length-serialize_policy m ok =
      let written =
        int32_field-Takes r laws 8 1 (one_byte 8 (omega arith)) m.id ok.id_range
        next string_field-Takes r laws 18 1 (one_byte 18 (omega arith)) m.version
            (ok.version_text).1
        next string_field-Takes r laws 26 1 (one_byte 26 (omega arith)) m.date_time
            (ok.date_time_text).1
        next messages-Takes r laws 34 1 (one_byte 34 (omega arith)) (AdPlay.serialize r)
            (AdPlay.byte_size_long r) m.ad_plays
            (All-map (λ v (w, small). (length-serialize_ad_play r laws v w, small)) m.ad_plays
              ok.ad_plays_fit) in
      omega (arith, written.size)
