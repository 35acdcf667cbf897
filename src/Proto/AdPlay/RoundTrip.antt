-- ===== src/Proto/AdPlay/RoundTrip.antt =====
-- What the class AdPlay of ad/AdPlayPolicy.pb.cc writes, it reads back.
use ad_manager.Base.{◌≡◌, refl, ap, ◌∙◌, some, ◌++◌, arith}
use ad_manager.Wire.{Bytes}
use ad_manager.Message.Runtime.{Runtime, IsRuntime}
use ad_manager.Message.Laws.{absent_number}
use ad_manager.Proto.Types.{AdPlay}
use ad_manager.Proto.Loop.{untaken}
use ad_manager.Proto.Reads.{Reads, ◌then◌, Reads-parse}
use ad_manager.Proto.Kinds.{Reads-int32, Reads-bool, Reads-messages, Reads-packed, absent_flag}
use ad_manager.Proto.Writable.{IsPlayTime, IsAdPlay}
use ad_manager.Proto.AdPlay
use ad_manager.Proto.PlayTime
use ad_manager.Proto.PlayTime.RoundTrip.{parse-serialize_play_time}

module _ (r : Runtime) (laws : IsRuntime r) where
  merges :
      (a m : AdPlay)
      → IsAdPlay r m
      → Reads r (AdPlay.switch r) a (AdPlay.serialize r m) (AdPlay.merge_from a m)
  unfolding AdPlay.switch AdPlay.serialize AdPlay.merge_from
  merges a m ok =
      Reads-int32 r laws (AdPlay.switch r) 8 (omega arith) (omega arith) AdPlay.location_lens
        m.location a (λ n b. refl) ok.location_range
      then Reads-int32 r laws (AdPlay.switch r) 16 (omega arith) (omega arith) AdPlay.mode_lens
          m.mode _ (λ n b. refl) ok.mode_range
      then Reads-bool r laws (AdPlay.switch r) 24 (omega arith) (omega arith) AdPlay.need_sync_lens
          m.need_sync _ (λ n b. refl)
      then Reads-messages r laws (AdPlay.switch r) 34 (omega arith) (omega arith)
          AdPlay.play_times_lens (PlayTime.serialize r) (PlayTime.parse r) (IsPlayTime r)
          m.play_times _ (λ n b. refl) (parse-serialize_play_time r laws) ok.play_times_fit
      then Reads-packed r laws (AdPlay.switch r) 42 (omega arith) (omega arith) AdPlay.ad_ids_lens
          m.ad_ids _ (λ n b. refl) ok.ad_ids_range ok.ad_ids_size

  merge_from-clear : (m : AdPlay) → AdPlay.merge_from AdPlay.clear m ≡ m
  unfolding AdPlay.merge_from
  merge_from-clear m = λ i. record {
    location = absent_number m.location i;
    mode = absent_number m.mode i;
    need_sync = absent_flag m.need_sync i;
    play_times = m.play_times;
    ad_ids = m.ad_ids;
  }

  no_zero : (m : AdPlay) (b : Bytes) → AdPlay.switch r 0 m b ≡ untaken
  unfolding AdPlay.switch
  no_zero m b = refl

  pub parse-serialize_ad_play :
      (m : AdPlay) → IsAdPlay r m → AdPlay.parse r (AdPlay.serialize r m) ≡ some m
  unfolding AdPlay.parse
  parse-serialize_ad_play m ok =
      Reads-parse r laws (AdPlay.switch r) no_zero (merges AdPlay.clear m ok)
      ∙ ap some (merge_from-clear m)

  parse-append_ad_play :
      (m n : AdPlay)
      → IsAdPlay r m
      → IsAdPlay r n
      → AdPlay.parse r (AdPlay.serialize r m ++ AdPlay.serialize r n) ≡ some (AdPlay.merge_from m n)
  unfolding AdPlay.parse
  parse-append_ad_play m n ok more =
      Reads-parse r laws (AdPlay.switch r) no_zero
        (merges AdPlay.clear m ok then merges (AdPlay.merge_from AdPlay.clear m) n more)
      ∙ ap (λ k. some (AdPlay.merge_from k n)) (merge_from-clear m)
