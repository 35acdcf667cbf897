-- ===== src/Manager/Calls.antt =====
-- Histories of a manager: the operations that the program's users, its timers and its start-up make,
-- in any order, each with what lies outside as it is at that moment.
use ad_manager.Base.{ℕ, List, [], ◌∷◌}
use ad_manager.Message.Types.{Codec}
use ad_manager.Manager.Types.{Manager, Outside}
use ad_manager.Manager.Download.{download_ads}
use ad_manager.Manager.Requests.{request_ad, request_ad_list, request_ad_play_policy}
use ad_manager.Manager.Queries.{get_ad}

pub data Call : Type 0 where
  requests_ad : ℕ → Call
  requests_ad_list : Call
  requests_policy : Call
  downloads : Call
  gets_ad : ℕ → Call

module _ (codec : Codec) where
  unfoldable pub manager_step : Outside → Call → Manager → Manager
  unfolding request_ad request_ad_list request_ad_play_policy download_ads get_ad
  manager_step o (requests_ad id) a = (request_ad o id a).0
  manager_step o requests_ad_list a = request_ad_list codec o a
  manager_step o requests_policy a = request_ad_play_policy codec o a
  manager_step o downloads a = download_ads codec o a
  manager_step o (gets_ad id) a = (get_ad id a).0

  unfoldable pub manager_run : List (Outside × Call) → Manager → Manager
  unfolding manager_step
  manager_run [] a = a
  manager_run ((o, c) ∷ cs) a = manager_run cs (manager_step o c a)
