-- ===== src/Examples/Arrivals.antt =====
-- The theorems on what comes from the center at concrete inputs.
use ad_manager.Base.{◌≡◌, refl, ◌≢◌, true, some, [], ◌∷◌, arith, pos, find}
use ad_manager.Wire.{Bytes}
use ad_manager.Message.Types.{empty}
use ad_manager.Message.Instance.{codec}
use ad_manager.Proto.AdPlayPolicy
use ad_manager.Proto.Result
use ad_manager.Manager.Types.{Manager, Outside}
use ad_manager.Manager.Requests.{
  ad_list_message, policy_message, policy_request, request_ad_list, request_ad_play_policy,
  utf8_to_gb2312,
}
use ad_manager.Manager.Formats.{to_u32, ad_of, policy_of, with_parsers}
use ad_manager.Manager.Center.{ad_list_arrives, list_is_read}
use ad_manager.Manager.CenterPolicy.{policy_arrives, policy_is_read}
use ad_manager.Examples.Data.{wire}
use ad_manager.Examples.Managers.{outside, client}
use ad_manager.Examples.Varint.{runtime, runtime-IsRuntime, all_ascii}
use ad_manager.Examples.Policies.{
  policy, film, picture, result, policy-IsAdPlayPolicy, result-IsResult, list-size, policy-size,
}

-- A server of a bar, and a client that knows no advertisements.
abbrev bar_server : Manager
bar_server = record client { is_bar_server = true; map_ad = []; policy = [] }

abbrev client_without : Manager
client_without = record client { map_ad = []; policy = [] }

other : to_u32 (pos 7) ≢ to_u32 (pos 8)
other e = absurd (omega arith)

abbrev list_bytes : Bytes
list_bytes = Result.serialize runtime result

abbrev policy_bytes : Bytes
policy_bytes = AdPlayPolicy.serialize runtime policy

-- A center that answers every request with the list, or with the policy.
abbrev list_center : Outside
list_center = record outside { peer = λ m. record empty { content = list_bytes } }

abbrev policy_center : Outside
policy_center = record outside { peer = λ m. record empty { content = policy_bytes } }

-- What the server of the bar answers to the request with number 4.
abbrev list_bar : Outside
list_bar = record outside { peer = λ m. record (ad_list_message list_bytes) { id = pos 4 } }

abbrev policy_bar : Outside
policy_bar = record outside { peer = λ m. record (policy_message policy_bytes) { id = pos 4 } }

list_message-Accepts : wire.Accepts (ad_list_message list_bytes)
unfolding codec runtime all_ascii
list_message-Accepts = record {
  id_range = omega arith;
  code_range = omega arith;
  method_utf8 = refl;
  return_msg_utf8 = refl;
  method_size = omega arith;
  content_size = omega (arith, list-size);
  return_msg_size = omega arith;
}

policy_message-Accepts : wire.Accepts (policy_message policy_bytes)
unfolding codec runtime all_ascii
policy_message-Accepts = record {
  id_range = omega arith;
  code_range = omega arith;
  method_utf8 = refl;
  return_msg_utf8 = refl;
  method_size = omega arith;
  content_size = omega (arith, policy-size);
  return_msg_size = omega arith;
}

ad_list_arrives_example :
    find 8 (request_ad_list wire (with_parsers runtime list_bar) client_without).map_ad
    ≡ some (utf8_to_gb2312 list_bar (ad_of picture))
ad_list_arrives_example =
    ad_list_arrives wire runtime runtime-IsRuntime list_center list_bar bar_server client_without
      result (film ∷ []) [] picture (pos 4) result-IsResult refl refl refl refl (omega arith)
      list_message-Accepts
      (list_is_read wire runtime runtime-IsRuntime list_center bar_server result (pos 4)
        result-IsResult refl refl refl (omega arith) list_message-Accepts)
      refl (other, tt) (unfold find in refl)

policy_arrives_example :
    (request_ad_play_policy wire (with_parsers runtime policy_bar) client_without).policy
    ≡ policy_of policy
policy_arrives_example =
    policy_arrives wire runtime runtime-IsRuntime policy_center policy_bar bar_server client_without
      policy (pos 4) policy-IsAdPlayPolicy refl refl refl (omega arith) policy_message-Accepts
      (policy_is_read wire runtime runtime-IsRuntime policy_center bar_server policy (pos 4)
        (policy_request policy_bar client_without).content policy-IsAdPlayPolicy refl refl refl
        (omega arith) policy_message-Accepts)
      refl
