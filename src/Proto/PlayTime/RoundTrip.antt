-- ===== src/Proto/PlayTime/RoundTrip.antt =====
-- What the class PlayTime of ad/AdPlayPolicy.pb.cc writes, it reads back.
use ad_manager.Base.{◌≡◌, refl, ap, ◌∙◌, some, ◌++◌, arith}
use ad_manager.Wire.{Bytes}
use ad_manager.Message.Runtime.{Runtime, IsRuntime}
use ad_manager.Message.Laws.{absent_bytes}
use ad_manager.Proto.Types.{PlayTime}
use ad_manager.Proto.Loop.{untaken}
use ad_manager.Proto.Reads.{Reads, ◌then◌, Reads-parse}
use ad_manager.Proto.Kinds.{Reads-text}
use ad_manager.Proto.Writable.{IsPlayTime}
use ad_manager.Proto.PlayTime

module _ (r : Runtime) (laws : IsRuntime r) where
  merges :
      (a m : PlayTime)
      → IsPlayTime r m
      → Reads r (PlayTime.switch r) a (PlayTime.serialize r m) (PlayTime.merge_from a m)
  unfolding PlayTime.switch PlayTime.serialize PlayTime.merge_from
  merges a m ok =
      Reads-text r laws (PlayTime.switch r) 10 (omega arith) (omega arith) PlayTime.bgn_time_lens
        m.bgn_time a (λ n b. refl) ok.bgn_time_text
      then Reads-text r laws (PlayTime.switch r) 18 (omega arith) (omega arith)
          PlayTime.end_time_lens m.end_time _ (λ n b. refl) ok.end_time_text

  merge_from-clear : (m : PlayTime) → PlayTime.merge_from PlayTime.clear m ≡ m
  unfolding PlayTime.merge_from
  merge_from-clear m =
      λ i. record { bgn_time = absent_bytes m.bgn_time i; end_time = absent_bytes m.end_time i }

  no_zero : (m : PlayTime) (b : Bytes) → PlayTime.switch r 0 m b ≡ untaken
  unfolding PlayTime.switch
  no_zero m b = refl

  pub parse-serialize_play_time :
      (m : PlayTime) → IsPlayTime r m → PlayTime.parse r (PlayTime.serialize r m) ≡ some m
  unfolding PlayTime.parse
  parse-serialize_play_time m ok =
      Reads-parse r laws (PlayTime.switch r) no_zero (merges PlayTime.clear m ok)
      ∙ ap some (merge_from-clear m)

  parse-append_play_time :
      (m n : PlayTime)
      → IsPlayTime r m
      → IsPlayTime r n
      → PlayTime.parse r (PlayTime.serialize r m ++ PlayTime.serialize r n)
        ≡ some (PlayTime.merge_from m n)
  unfolding PlayTime.parse
  parse-append_play_time m n ok more =
      Reads-parse r laws (PlayTime.switch r) no_zero
        (merges PlayTime.clear m ok then merges (PlayTime.merge_from PlayTime.clear m) n more)
      ∙ ap (λ k. some (PlayTime.merge_from k n)) (merge_from-clear m)
