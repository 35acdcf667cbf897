-- ===== src/Examples/Formats.antt =====
-- The theorems on the generated classes at concrete inputs.
use ad_manager.Base.{◌≡◌, refl, ◌≢◌, some, [], ◌∷◌, ◌++◌, arith, length}
use ad_manager.Proto.PlayTime
use ad_manager.Proto.AdPlay
use ad_manager.Proto.AdPlayPolicy
use ad_manager.Proto.Ad
use ad_manager.Proto.Result
use ad_manager.Proto.Loop.{starved, merge_loop}
use ad_manager.Proto.Ends.{parsers_end}
use ad_manager.Proto.AdPlayPolicy.RoundTrip.{parse-serialize_policy, unknown_fields_skipped}
use ad_manager.Proto.Result.RoundTrip.{parse-serialize_result}
use ad_manager.Proto.Ad.RoundTrip.{parse-append_ad}
use ad_manager.Proto.Result.Sizes.{length-serialize_result}
use ad_manager.Examples.Varint.{unvarint, runtime, runtime-IsRuntime}
use ad_manager.Examples.Policies.{
  policy, film, picture, result, policy-IsAdPlayPolicy, film-IsAd, picture-IsAd, result-IsResult,
}

parse-serialize_policy_example :
    AdPlayPolicy.parse runtime (AdPlayPolicy.serialize runtime policy) ≡ some policy
parse-serialize_policy_example =
    parse-serialize_policy runtime runtime-IsRuntime policy policy-IsAdPlayPolicy

parse-serialize_result_example :
    Result.parse runtime (Result.serialize runtime result) ≡ some result
parse-serialize_result_example =
    parse-serialize_result runtime runtime-IsRuntime result result-IsResult

parse-append_ad_example :
    Ad.parse runtime (Ad.serialize runtime film ++ Ad.serialize runtime picture)
    ≡ some (Ad.merge_from film picture)
parse-append_ad_example =
    parse-append_ad runtime runtime-IsRuntime film picture film-IsAd picture-IsAd

length-serialize_result_example :
    length (Result.serialize runtime result) ≡ Result.byte_size_long runtime result
length-serialize_result_example =
    length-serialize_result runtime runtime-IsRuntime result result-IsResult

parsers_end_example :
    (merge_loop runtime (PlayTime.switch runtime) 4 PlayTime.clear (10 ∷ 1 ∷ 50 ∷ []) ≢ starved)
    × (merge_loop runtime (AdPlay.switch runtime) 4 AdPlay.clear (10 ∷ 1 ∷ 50 ∷ []) ≢ starved)
    × (merge_loop runtime (AdPlayPolicy.switch runtime) 4 AdPlayPolicy.clear (10 ∷ 1 ∷ 50 ∷ [])
        ≢ starved)
    × (merge_loop runtime (Ad.switch runtime) 4 Ad.clear (10 ∷ 1 ∷ 50 ∷ []) ≢ starved)
    × (merge_loop runtime (Result.switch runtime) 4 Result.clear (10 ∷ 1 ∷ 50 ∷ []) ≢ starved)
parsers_end_example = parsers_end runtime runtime-IsRuntime (10 ∷ 1 ∷ 50 ∷ [])

-- A number in a field 5, which a policy does not have.
unknown_fields_skipped_example :
    AdPlayPolicy.parse runtime (
      (runtime.write_tag 40 ++ (9 ∷ []))
      ++ (AdPlayPolicy.serialize runtime policy ++ (runtime.write_tag 40 ++ (9 ∷ []))))
    ≡ some policy
unknown_fields_skipped_example =
    unknown_fields_skipped runtime runtime-IsRuntime policy 40 (9 ∷ []) policy-IsAdPlayPolicy
      (omega arith) (omega arith) refl (λ n b. unfold AdPlayPolicy.switch in refl)
      (λ rest. unfold runtime unvarint in refl)
