-- ===== src/Examples/Businesses.antt =====
-- The beginning and the end of the business at concrete inputs.
use ad_manager.Base.{◌+◌, ◌≡◌, refl, true, false, none, some, List, [], ◌∷◌}
use ad_manager.Wire.{text}
use ad_manager.Client.{Endpoint, new_client}
use ad_manager.Server.{new_server}
use ad_manager.Player.Com.{acquired, failed}
use ad_manager.Player.References.{one}
use ad_manager.Player.State.{Player, new_player, started}
use ad_manager.Manager.Requests.{request_ad_list, request_ad_play_policy}
use ad_manager.Manager.Download.{download_ads}
use ad_manager.Player.Messages.{acquisitions, releases, unhandled}
use ad_manager.Player.Events.{shutdown}
use ad_manager.Player.Lifetime.{player_release}
use ad_manager.Manager.Services.{
  Job, net_job, biz_job, timer_expires, connect_ends, begins, run_jobs,
}
use ad_manager.Manager.Business.{Business, end_business}
use ad_manager.Manager.Lifecycle.{end_business-over, pool_of}
use ad_manager.Examples.Data.{wire}
use ad_manager.Examples.Managers.{client, outside}
use ad_manager.Examples.Playback.{platform}

abbrev here : Endpoint
here = record { address = text "10.0.0.1"; port = 4000 }

-- It plays a file, and has a session and a source.
abbrev playing : Player
playing = record (new_player true) { session = some 1; source = some 2; state = started }

-- The client waits for its reconnect timer and for an attempt to connect.
abbrev business : Business
business = record {
  manager = client;
  endpoint = here;
  log_level = none;
  client = record (new_client here) { reconnect_timer = some 2; connecting = true };
  server = some new_server;
  player = some playing;
  media_source_ready = false;
  world = record { calls = 3; log = acquired 2 ∷ acquired 1 ∷ [] };
  net_running = true;
  biz_running = true;
}

abbrev jobs : List Job
jobs =
    net_job timer_expires ∷ net_job (connect_ends true) ∷ biz_job outside (begins (true ∷ [])) ∷ []

end_business-over_example :
    let ((d, out), outs) = end_business (platform 1000) business in
    (d.player ≡ none)
    × (acquisitions 2 d.world.log ≡ releases 2 d.world.log + unhandled 2 d.world.log)
    × (d.client.session.after_net_error ≡ none)
    × (d.client.session.is_connected ≡ false)
    × (pool_of d.server ≡ [])
    × (request_ad_play_policy wire outside d.manager ≡ d.manager)
    × (request_ad_list wire outside d.manager ≡ d.manager)
    × (download_ads wire outside d.manager ≡ d.manager)
    × (run_jobs wire jobs d ≡ ((d, []), []))
unfolding new_player one end_business shutdown player_release failed
end_business-over_example =
    end_business-over wire (platform 1000) business playing 2 outside jobs refl refl refl refl
