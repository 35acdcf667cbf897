-- ===== src/Proto/Ends.antt =====
-- Parsing with each class of ad/AdPlayPolicy.pb.cc ends.
use ad_manager.Base.{ℕ, suc, ◌≡◌, refl, ◌≢◌, arith, ◌==◌, length}
use ad_manager.Wire.{Bytes}
use ad_manager.Message.Runtime.{Runtime, IsRuntime}
use ad_manager.Proto.Types.{PlayTime, AdPlay, AdPlayPolicy, Ad, Result}
use ad_manager.Proto.Loop.{untaken, starved, merge_loop}
use ad_manager.Proto.Total.{merge_loop-ends}
use ad_manager.Proto.Leaves.{
  Leaving, ◌orelse◌, otherwise, on, int32_leaves, bool_leaves, bytes_leaves, text_leaves,
  texts_leaves, packed_leaves, single_leaves, message_leaves,
}
use ad_manager.Proto.PlayTime
use ad_manager.Proto.AdPlay
use ad_manager.Proto.AdPlayPolicy
use ad_manager.Proto.Ad
use ad_manager.Proto.AdFields
use ad_manager.Proto.Result

module _ (r : Runtime) (laws : IsRuntime r) where
  leaves_play_time :
      (t : ℕ) (m : PlayTime) (b : Bytes) → Leaving (length b) (PlayTime.switch r t m b)
  unfolding PlayTime.switch
  leaves_play_time t m b =
      on (t == 10) (text_leaves r laws m b PlayTime.bgn_time_lens)
      orelse on (t == 18) (text_leaves r laws m b PlayTime.end_time_lens)
      orelse otherwise

  no_zero_play_time : (m : PlayTime) (b : Bytes) → PlayTime.switch r 0 m b ≡ untaken
  unfolding PlayTime.switch
  no_zero_play_time m b = refl

  leaves_ad_play : (t : ℕ) (m : AdPlay) (b : Bytes) → Leaving (length b) (AdPlay.switch r t m b)
  unfolding AdPlay.switch
  leaves_ad_play t m b =
      on (t == 8) (int32_leaves r laws m b AdPlay.location_lens)
      orelse on (t == 16) (int32_leaves r laws m b AdPlay.mode_lens)
      orelse on (t == 24) (bool_leaves r laws m b AdPlay.need_sync_lens)
      orelse on (t == 34) (message_leaves r laws m b (PlayTime.parse r) AdPlay.play_times_lens)
      orelse on (t == 42) (packed_leaves r laws m b AdPlay.ad_ids_lens)
      orelse on (t == 40) (single_leaves r laws m b 42 AdPlay.ad_ids_lens)
      orelse otherwise

  no_zero_ad_play : (m : AdPlay) (b : Bytes) → AdPlay.switch r 0 m b ≡ untaken
  unfolding AdPlay.switch
  no_zero_ad_play m b = refl

  leaves_policy :
      (t : ℕ) (m : AdPlayPolicy) (b : Bytes) → Leaving (length b) (AdPlayPolicy.switch r t m b)
  unfolding AdPlayPolicy.switch
  leaves_policy t m b =
      on (t == 8) (int32_leaves r laws m b AdPlayPolicy.id_lens)
      orelse on (t == 18) (text_leaves r laws m b AdPlayPolicy.version_lens)
      orelse on (t == 26) (text_leaves r laws m b AdPlayPolicy.date_time_lens)
      orelse on (t == 34) (message_leaves r laws m b (AdPlay.parse r) AdPlayPolicy.ad_plays_lens)
      orelse otherwise

  no_zero_policy : (m : AdPlayPolicy) (b : Bytes) → AdPlayPolicy.switch r 0 m b ≡ untaken
  unfolding AdPlayPolicy.switch
  no_zero_policy m b = refl

  leaves_ad : (t : ℕ) (m : Ad) (b : Bytes) → Leaving (length b) (Ad.switch r t m b)
  unfolding Ad.switch
  leaves_ad t m b =
      on (t == 8) (int32_leaves r laws m b AdFields.id_lens)
      orelse on (t == 18) (text_leaves r laws m b AdFields.name_lens)
      orelse on (t == 26) (text_leaves r laws m b AdFields.file_name_lens)
      orelse on (t == 34) (text_leaves r laws m b AdFields.advertiser_lens)
      orelse on (t == 40) (int32_leaves r laws m b AdFields.type_lens)
      orelse on (t == 50) (text_leaves r laws m b AdFields.url_lens)
      orelse on (t == 58) (bytes_leaves r laws m b AdFields.image_lens)
      orelse on (t == 64) (int32_leaves r laws m b AdFields.width_lens)
      orelse on (t == 72) (int32_leaves r laws m b AdFields.height_lens)
      orelse on (t == 82) (text_leaves r laws m b AdFields.format_lens)
      orelse on (t == 88) (int32_leaves r laws m b AdFields.size_lens)
      orelse on (t == 98) (text_leaves r laws m b AdFields.md5_lens)
      orelse on (t == 104) (int32_leaves r laws m b AdFields.duration_lens)
      orelse on (t == 114) (texts_leaves r laws m b AdFields.download_lens)
      orelse on (t == 120) (int32_leaves r laws m b AdFields.min_age_lens)
      orelse on (t == 128) (int32_leaves r laws m b AdFields.max_age_lens)
      orelse on (t == 136) (int32_leaves r laws m b AdFields.sex_lens)
      orelse on (t == 146) (texts_leaves r laws m b AdFields.visit_stat_code_lens)
      orelse on (t == 154) (packed_leaves r laws m b AdFields.pause_pop_ad_ids_lens)
      orelse on (t == 152) (single_leaves r laws m b 154 AdFields.pause_pop_ad_ids_lens)
      orelse on (t == 162) (packed_leaves r laws m b AdFields.unlock_pop_ad_ids_lens)
      orelse on (t == 160) (single_leaves r laws m b 162 AdFields.unlock_pop_ad_ids_lens)
      orelse otherwise

  no_zero_ad : (m : Ad) (b : Bytes) → Ad.switch r 0 m b ≡ untaken
  unfolding Ad.switch
  no_zero_ad m b = refl

  leaves_result : (t : ℕ) (m : Result) (b : Bytes) → Leaving (length b) (Result.switch r t m b)
  unfolding Result.switch
  leaves_result t m b =
      on (t == 10) (message_leaves r laws m b (Ad.parse r) Result.ads_lens) orelse otherwise

  no_zero_result : (m : Result) (b : Bytes) → Result.switch r 0 m b ≡ untaken
  unfolding Result.switch
  no_zero_result m b = refl

  -- With the fuel that the parsers have, one more than the bytes of the input, the reading loop of
  -- none of the five classes runs out of fuel, for a runtime with its documented laws.
  pub parsers_end :
      (b : Bytes)
      → (merge_loop r (PlayTime.switch r) (suc (length b)) PlayTime.clear b ≢ starved)
        × (merge_loop r (AdPlay.switch r) (suc (length b)) AdPlay.clear b ≢ starved)
        × (merge_loop r (AdPlayPolicy.switch r) (suc (length b)) AdPlayPolicy.clear b ≢ starved)
        × (merge_loop r (Ad.switch r) (suc (length b)) Ad.clear b ≢ starved)
        × (merge_loop r (Result.switch r) (suc (length b)) Result.clear b ≢ starved)
  parsers_end b = (
    merge_loop-ends r laws (PlayTime.switch r) leaves_play_time no_zero_play_time (suc (length b))
        PlayTime.clear b (omega arith),
    merge_loop-ends r laws (AdPlay.switch r) leaves_ad_play no_zero_ad_play (suc (length b))
        AdPlay.clear b (omega arith),
    merge_loop-ends r laws (AdPlayPolicy.switch r) leaves_policy no_zero_policy (suc (length b))
        AdPlayPolicy.clear b (omega arith),
    merge_loop-ends r laws (Ad.switch r) leaves_ad no_zero_ad (suc (length b)) Ad.clear b
        (omega arith),
    merge_loop-ends r laws (Result.switch r) leaves_result no_zero_result (suc (length b))
        Result.clear b (omega arith),
  )
