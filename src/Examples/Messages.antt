-- ===== src/Examples/Messages.antt =====
-- The theorems on messages at concrete inputs.
use ad_manager.Base.{◌≡◌, ◌≢◌, some, [], ◌∷◌, ◌++◌, arith}
use ad_manager.Message.Types.{empty}
use ad_manager.Message.Generated.{serialize, parse, merge_from, merge_partial, out_of_fuel}
use ad_manager.Message.Laws.{parse-serialize_append}
use ad_manager.Message.Total.{merge_partial_total}
use ad_manager.Examples.Varint.{runtime, runtime-IsRuntime}
use ad_manager.Examples.Data.{asking, answer, asking-IsWritable, answer-IsWritable}

parse-serialize_append_example :
    parse runtime (serialize runtime asking ++ serialize runtime answer)
    ≡ some (merge_from asking answer)
parse-serialize_append_example =
    parse-serialize_append runtime runtime-IsRuntime asking answer asking-IsWritable
      answer-IsWritable

merge_partial_total_example : merge_partial runtime 4 empty (8 ∷ 5 ∷ 1 ∷ []) ≢ out_of_fuel
merge_partial_total_example =
    merge_partial_total runtime runtime-IsRuntime 4 empty (8 ∷ 5 ∷ 1 ∷ []) (omega arith)
