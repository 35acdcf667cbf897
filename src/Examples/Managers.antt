-- ===== src/Examples/Managers.antt =====
-- The theorems on the manager at concrete inputs.
use ad_manager.Base.{
  ◌≡◌, refl, sym, true, false, none, some, List, [], ◌∷◌, arith, ℕ_discrete, pos, find, insert,
  keep_keys,
}
use ad_manager.Wire.{bytes_eq}
use ad_manager.Manager.Types.{Manager, Ad, empty_ad, Outside}
use ad_manager.Manager.Handler.{handle_request, reply_buffer}
use ad_manager.Manager.Download.{
  is_below, collect, policy_ids, touch, set_insert, contains, download_needed, fetch_all,
  download_ad, download_from_server, any_missing, download_ads, is_cached, retry_after,
  store_server, file_message, file_request,
}
use ad_manager.Manager.Queries.{get_ad}
use ad_manager.Manager.Calls.{Call, requests_policy, downloads, gets_ad, manager_run}
use ad_manager.Manager.Known.{known_forever, asked_early_stays_empty}
use ad_manager.Manager.Verified.{IsVerified}
use ad_manager.Manager.History.{manager_run-IsVerified}
use ad_manager.Manager.Needed.{is_needed}
use ad_manager.Manager.Cache.{kept-needed, needed_stays, missing_retried}
use ad_manager.Manager.Relay.{file_is_relayed, read_back}
use ad_manager.Examples.Data.{wire, answer, answer-Accepts}

-- The other side has one file for every number, and nothing else.
abbrev pub outside : Outside
outside = record {
  parse_ad = λ b. none;
  parse_ads = λ b. some [];
  parse_policy = λ b. ([], true);
  to_gb2312 = λ b. b;
  to_upper = λ b. b;
  to_int = λ b. none;
  hex_digest = λ b. 9 ∷ [];
  peer = λ m. answer;
  http_get = λ id n url. none;
}

-- Advertisement 7 has the file that the other side has, advertisement 8 another one.
abbrev ad_7 : Ad
ad_7 = record empty_ad { id = 7; md5 = 9 ∷ []; download = (1 ∷ []) ∷ [] }

abbrev ad_8 : Ad
ad_8 = record empty_ad { id = 8; md5 = 10 ∷ []; download = (1 ∷ []) ∷ [] }

-- A client with two files to get, and one that it does not need any more.
abbrev pub client : Manager
client = record {
  bar_id = [];
  is_bar_server = false;
  listen_port = 0;
  is_end_business = false;
  timer_policy = none;
  timer_ad_list = none;
  timer_download = none;
  policy = record { location = 2; ad_ids = 7 ∷ 8 ∷ 7 ∷ [] } ∷ [];
  map_ad = (7, ad_7) ∷ (8, ad_8) ∷ (6, ad_7) ∷ [];
  lock_ads = [];
  buf_policy = [];
  buf_ad_list = [];
  buf_images = (6, 1 ∷ 2 ∷ []) ∷ [];
  player = none;
  disk = [];
}

abbrev calls : List (Outside × Call)
calls = (outside, downloads) ∷ (outside, requests_policy) ∷ (outside, gets_ad 5) ∷ []

client-IsVerified : IsVerified wire outside.hex_digest outside.to_upper client
client-IsVerified = record {
  right = λ id buf h. elim (ℕ_discrete 6 id) [
    | yes e ↦ (ad_7, buf, unfold find in rw (sym e) refl, unfold bytes_eq in refl, refl)
    | no ne ↦ absurd (unfold find in ground arith)
  ];
}

manager_run-IsVerified_example :
    IsVerified wire outside.hex_digest outside.to_upper (manager_run wire calls client)
manager_run-IsVerified_example =
    manager_run-IsVerified wire outside.hex_digest outside.to_upper calls client
      ((refl, refl), ((refl, refl), ((refl, refl), tt))) client-IsVerified

fetched : is_cached 7 (download_ads wire outside client) ≡ true
unfolding download_ads collect policy_ids touch set_insert is_below contains download_needed
    fetch_all download_ad download_from_server any_missing
fetched = unfold find insert keep_keys bytes_eq in refl

not_fetched : is_cached 8 (download_ads wire outside client) ≡ false
unfolding download_ads collect policy_ids touch set_insert is_below contains download_needed
    fetch_all download_ad download_from_server any_missing
not_fetched = unfold find insert keep_keys bytes_eq in refl

kept-needed_example : is_needed 7 client ≡ true
kept-needed_example = kept-needed wire outside client 7 refl fetched

missing_retried_example : (download_ads wire outside client).timer_download ≡ some retry_after
missing_retried_example =
    missing_retried wire outside client 8 refl (unfold contains policy_ids find in refl) not_fetched

abbrev filled : Manager
filled = record client { buf_images = (7, 1 ∷ 2 ∷ 3 ∷ []) ∷ [] }

needed_stays_example : find 7 (download_ads wire outside filled).buf_images ≡ some (1 ∷ 2 ∷ 3 ∷ [])
needed_stays_example =
    needed_stays wire outside filled 7 (1 ∷ 2 ∷ 3 ∷ []) refl
      (unfold contains policy_ids find in refl) (unfold find in refl)

known_forever_example : find 7 (manager_run wire calls client).map_ad ≡ some ad_7
known_forever_example = known_forever wire calls client 7 ad_7 (unfold find in refl)

asked_early_stays_empty_example :
    (get_ad 5 (manager_run wire calls (get_ad 5 client).0)).1 ≡ empty_ad
asked_early_stays_empty_example = asked_early_stays_empty wire calls client 5 (unfold find in refl)

file_is_relayed_example :
    (handle_request
        (store_server wire outside 7 ad_7 (1 ∷ 2 ∷ 3 ∷ []) client)
        (record (file_request 7) { id = pos 4 })
      ≡ reply_buffer (pos 4) (wire.serialize (file_message (1 ∷ 2 ∷ 3 ∷ []))))
    × (read_back wire (pos 4) (wire.serialize (file_message (1 ∷ 2 ∷ 3 ∷ [])))
        ≡ some (record (file_message (1 ∷ 2 ∷ 3 ∷ [])) { id = pos 4 }))
file_is_relayed_example =
    file_is_relayed wire outside 7 ad_7 (1 ∷ 2 ∷ 3 ∷ []) client (pos 4) (omega arith)
      (unfold find in refl) (omega arith) answer-Accepts
