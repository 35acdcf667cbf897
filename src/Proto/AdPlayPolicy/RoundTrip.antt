-- ===== src/Proto/AdPlayPolicy/RoundTrip.antt =====
-- What the class AdPlayPolicy of ad/AdPlayPolicy.pb.cc writes, it reads back.
use ad_manager.Base.{ℕ, ◌^◌, ◌<◌, ◌≡◌, refl, ap, ◌∙◌, false, some, ◌++◌, arith}
use ad_manager.Wire.{Bytes}
use ad_manager.Message.Runtime.{Runtime, IsRuntime}
use ad_manager.Message.Laws.{absent_number, absent_bytes}
use ad_manager.Proto.Types.{AdPlayPolicy}
use ad_manager.Message.Generated.{is_end_group}
use ad_manager.Proto.Loop.{untaken}
use ad_manager.Proto.Reads.{Reads, Reads-skip, ◌then◌, Reads-parse}
use ad_manager.Proto.Kinds.{Reads-int32, Reads-text, Reads-messages}
use ad_manager.Proto.Writable.{IsAdPlay, IsAdPlayPolicy}
use ad_manager.Proto.AdPlayPolicy
use ad_manager.Proto.AdPlay
use ad_manager.Proto.AdPlay.RoundTrip.{parse-serialize_ad_play}

module _ (r : Runtime) (laws : IsRuntime r) where
  merges :
      (a m : AdPlayPolicy)
      → IsAdPlayPolicy r m
      → Reads r (AdPlayPolicy.switch r) a (AdPlayPolicy.serialize r m) (AdPlayPolicy.merge_from a m)
  unfolding AdPlayPolicy.switch AdPlayPolicy.serialize AdPlayPolicy.merge_from
  merges a m ok =
      Reads-int32 r laws (AdPlayPolicy.switch r) 8 (omega arith) (omega arith) AdPlayPolicy.id_lens
        m.id a (λ n b. refl) ok.id_range
      then Reads-text r laws (AdPlayPolicy.switch r) 18 (omega arith) (omega arith)
          AdPlayPolicy.version_lens m.version _ (λ n b. refl) ok.version_text
      then Reads-text r laws (AdPlayPolicy.switch r) 26 (omega arith) (omega arith)
          AdPlayPolicy.date_time_lens m.date_time _ (λ n b. refl) ok.date_time_text
      then Reads-messages r laws (AdPlayPolicy.switch r) 34 (omega arith) (omega arith)
          AdPlayPolicy.ad_plays_lens (AdPlay.serialize r) (AdPlay.parse r) (IsAdPlay r) m.ad_plays _
          (λ n b. refl) (parse-serialize_ad_play r laws) ok.ad_plays_fit

  merge_from-clear : (m : AdPlayPolicy) → AdPlayPolicy.merge_from AdPlayPolicy.clear m ≡ m
  unfolding AdPlayPolicy.merge_from
  merge_from-clear m = λ i. record {
    id = absent_number m.id i;
    version = absent_bytes m.version i;
    date_time = absent_bytes m.date_time i;
    ad_plays = m.ad_plays;
  }

  no_zero : (m : AdPlayPolicy) (b : Bytes) → AdPlayPolicy.switch r 0 m b ≡ untaken
  unfolding AdPlayPolicy.switch
  no_zero m b = refl

  -- A policy that is written reads as itself, with its lists of advertisements and their times, if its
  -- numbers are of 32 bits, its texts UTF-8 and its parts shorter than 2^31 bytes, for a runtime with
  -- its documented laws.
  pub parse-serialize_policy :
      (m : AdPlayPolicy)
      → IsAdPlayPolicy r m
      → AdPlayPolicy.parse r (AdPlayPolicy.serialize r m) ≡ some m
  unfolding AdPlayPolicy.parse
  parse-serialize_policy m ok =
      Reads-parse r laws (AdPlayPolicy.switch r) no_zero (merges AdPlayPolicy.clear m ok)
      ∙ ap some (merge_from-clear m)

  parse-append_policy :
      (m n : AdPlayPolicy)
      → IsAdPlayPolicy r m
      → IsAdPlayPolicy r n
      → AdPlayPolicy.parse r (AdPlayPolicy.serialize r m ++ AdPlayPolicy.serialize r n)
        ≡ some (AdPlayPolicy.merge_from m n)
  unfolding AdPlayPolicy.parse
  parse-append_policy m n ok more =
      Reads-parse r laws (AdPlayPolicy.switch r) no_zero (
        merges AdPlayPolicy.clear m ok
        then merges (AdPlayPolicy.merge_from AdPlayPolicy.clear m) n more)
      ∙ ap (λ k. some (AdPlayPolicy.merge_from k n)) (merge_from-clear m)

  -- A policy that is written between two fields that are not its own reads as itself: the fields of
  -- a newer format do no harm. The conditions: the policy is as for the round trip, the tag is not 0,
  -- has at most two bytes and is neither one of the class nor the end of a group, and the runtime can
  -- skip the field's value and has its documented laws.
  pub unknown_fields_skipped :
      (m : AdPlayPolicy) (t : ℕ) (value : Bytes)
      → IsAdPlayPolicy r m
      → 0 < t
      → t < 2 ^ 14
      → is_end_group t ≡ false
      → ((n : AdPlayPolicy) (b : Bytes) → AdPlayPolicy.switch r t n b ≡ untaken)
      → ((rest : Bytes) → r.skip_field t (value ++ rest) ≡ some rest)
      → AdPlayPolicy.parse r
          ((r.write_tag t ++ value) ++ (AdPlayPolicy.serialize r m ++ (r.write_tag t ++ value)))
        ≡ some m
  unfolding AdPlayPolicy.parse
  unknown_fields_skipped m t value ok p q group unknown skips =
      let skip = λ (n : AdPlayPolicy).
        Reads-skip r laws (AdPlayPolicy.switch r) t value n p q group (unknown n) skips in
      Reads-parse r laws (AdPlayPolicy.switch r) no_zero (
        skip AdPlayPolicy.clear
        then merges AdPlayPolicy.clear m ok
        then skip (AdPlayPolicy.merge_from AdPlayPolicy.clear m))
      ∙ ap some (merge_from-clear m)
