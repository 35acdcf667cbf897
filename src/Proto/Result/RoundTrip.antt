-- ===== src/Proto/Result/RoundTrip.antt =====
-- What the class Result of ad/AdPlayPolicy.pb.cc writes, it reads back.
use ad_manager.Base.{◌≡◌, refl, ap, ◌∙◌, some, ◌++◌, arith}
use ad_manager.Wire.{Bytes}
use ad_manager.Message.Runtime.{Runtime, IsRuntime}
use ad_manager.Proto.Types.{Result}
use ad_manager.Proto.Loop.{untaken}
use ad_manager.Proto.Reads.{Reads, ◌then◌, Reads-parse}
use ad_manager.Proto.Kinds.{Reads-messages}
use ad_manager.Proto.Writable.{IsAd, IsResult}
use ad_manager.Proto.Result
use ad_manager.Proto.Ad
use ad_manager.Proto.Ad.RoundTrip.{parse-serialize_ad}

module _ (r : Runtime) (laws : IsRuntime r) where
  merges :
      (a m : Result)
      → IsResult r m
      → Reads r (Result.switch r) a (Result.serialize r m) (Result.merge_from a m)
  unfolding Result.switch Result.serialize Result.merge_from
  merges a m ok =
      Reads-messages r laws (Result.switch r) 10 (omega arith) (omega arith) Result.ads_lens
        (Ad.serialize r) (Ad.parse r) (IsAd r) m.ads a (λ n b. refl) (parse-serialize_ad r laws)
        ok.ads_fit

  merge_from-clear : (m : Result) → Result.merge_from Result.clear m ≡ m
  unfolding Result.merge_from
  merge_from-clear m = refl

  no_zero : (m : Result) (b : Bytes) → Result.switch r 0 m b ≡ untaken
  unfolding Result.switch
  no_zero m b = refl

  -- A list of advertisements that is written reads as itself, if the numbers in it are of 32 bits, the
  -- texts UTF-8 and the parts shorter than 2^31 bytes, for a runtime with its documented laws.
  pub parse-serialize_result :
      (m : Result) → IsResult r m → Result.parse r (Result.serialize r m) ≡ some m
  unfolding Result.parse
  parse-serialize_result m ok =
      Reads-parse r laws (Result.switch r) no_zero (merges Result.clear m ok)
      ∙ ap some (merge_from-clear m)

  parse-append_result :
      (m n : Result)
      → IsResult r m
      → IsResult r n
      → Result.parse r (Result.serialize r m ++ Result.serialize r n) ≡ some (Result.merge_from m n)
  unfolding Result.parse
  parse-append_result m n ok more =
      Reads-parse r laws (Result.switch r) no_zero
        (merges Result.clear m ok then merges (Result.merge_from Result.clear m) n more)
      ∙ ap (λ k. some (Result.merge_from k n)) (merge_from-clear m)
