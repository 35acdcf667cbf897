-- ===== src/Proto/Result/Sizes.antt =====
-- How many bytes the class Result of ad/AdPlayPolicy.pb.cc writes, against its ByteSizeLong.
use ad_manager.Base.{◌≡◌, arith, length, All-map}
use ad_manager.Message.Runtime.{Runtime, IsRuntime}
use ad_manager.Proto.Types.{Result}
use ad_manager.Proto.Writable.{IsResult}
use ad_manager.Proto.Sizes.{messages-Takes}
use ad_manager.Proto.Result
use ad_manager.Proto.Ad
use ad_manager.Proto.Ad.Sizes.{length-serialize_ad}

module _ (r : Runtime) (laws : IsRuntime r) where
  open laws use {tag_size as one_byte, tag_size_two as two_bytes}

  -- For a list of advertisements with numbers of 32 bits, UTF-8 texts and parts shorter than 2^31
  -- bytes, ByteSizeLong is the number of bytes that are written, for a runtime with its documented
  -- laws.
  pub length-serialize_result :
      (m : Result) → IsResult r m → length (Result.serialize r m) ≡ Result.byte_size_long r m
  unfolding Result.serialize Result.byte_size_long
  length-serialize_result m ok =
      let written =
        messages-Takes r laws 10 1 (one_byte 10 (omega arith)) (Ad.serialize r)
          (Ad.byte_size_long r) m.ads
          (All-map (λ v (w, small). (length-serialize_ad r laws v w, small)) m.ads ok.ads_fit) in
      omega (arith, written.size)
