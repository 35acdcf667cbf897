-- ===== src/Manager/Business.antt =====
-- AdManager.cpp: the configuration, the beginning and the end of the business, and the window, with
-- the connections and the player that the business has.
use ad_manager.Base.{
  ℕ, suc, Bool, true, false, Option, none, some, List, [], ◌∷◌, ◌++◌, if◌then◌else◌,
}
use ad_manager.Wire.{Bytes}
use ad_manager.Logger.{SeverityLevel, severity_of, init_logger}
use ad_manager.Message.Types.{Codec}
use ad_manager.Session.Types.{Effect}
use ad_manager.Client.{Client, Endpoint, sync_connect, new_client}
use ad_manager.Client
use ad_manager.Server.{Server, Effects, new_server}
use ad_manager.Server
use ad_manager.Player.Com.{World, Platform, failed}
use ad_manager.Player.State.{Player}
use ad_manager.Player.Events.{shutdown}
use ad_manager.Player.Lifetime.{Libraries, create_instance, player_release, set_video_window}
use ad_manager.Manager.Types.{Manager, PlayerLink, Outside}
use ad_manager.Manager.Handler.{init_response_buf}
use ad_manager.Manager.Requests.{request_ad_play_policy}

-- The manager's own state, and the objects that it has. `media_source_ready` is the flag of player.cpp
-- that SetMediaSourceReady sets; `log_level` is that of the log, if it was set up. `world` is what the
-- player has done. The last two tell whether the two threads run their io_services.
pub record Business : Type 0 where
  pub manager : Manager
  pub endpoint : Endpoint
  pub log_level : Option SeverityLevel
  pub client : Client
  pub server : Option Server
  pub player : Option Player
  pub media_source_ready : Bool
  pub world : World
  pub net_running : Bool
  pub biz_running : Bool

-- The constructor. It leaves the endpoint, the role and the port as they happen to be.
unfoldable pub new_business : Codec → Endpoint → Bool → ℕ → Business
unfolding new_client init_response_buf
new_business codec unset is_bar_server listen_port = record {
  manager = init_response_buf codec (record {
    bar_id = [];
    is_bar_server = is_bar_server;
    listen_port = listen_port;
    is_end_business = false;
    timer_policy = none;
    timer_ad_list = none;
    timer_download = none;
    policy = [];
    map_ad = [];
    lock_ads = [];
    buf_policy = [];
    buf_ad_list = [];
    buf_images = [];
    player = none;
    disk = [];
  });
  endpoint = unset;
  log_level = none;
  client = new_client unset;
  server = none;
  player = none;
  media_source_ready = false;
  world = record { calls = 0; log = [] };
  net_running = true;
  biz_running = true;
}

pub record Config : Type 0 where
  pub peer : Endpoint
  pub bar_id : Bytes
  pub is_bar_server : Bool
  pub listen_port : ℕ
  pub log_lvl : Bytes

unfoldable pub set_config : Config → Business → Business
unfolding severity_of init_logger
set_config k b = record b {
  endpoint = k.peer;
  manager = record b.manager {
    bar_id = k.bar_id;
    is_bar_server = k.is_bar_server;
    listen_port = k.listen_port;
  };
  log_level = init_logger (severity_of k.log_lvl) b.log_level;
}

-- The part of the player that the refreshes read and write: one object, seen from the manager.
abbrev pub link_of : Bool → Option Player → Option PlayerLink
link_of ready none = none
link_of ready (some x) = some (record { play_list = x.play_list; ready = ready })

abbrev pub put_back : Option PlayerLink → Option Player → Option Player
put_back (some l) (some x) = some (record x { play_list = l.play_list })
put_back (some l) none = none
put_back none o = o

abbrev pub ready_of : Option PlayerLink → Bool → Bool
ready_of none ready = ready
ready_of (some l) ready = l.ready

-- An operation of the manager on the business.
unfoldable pub with_manager : (Manager → Manager) → Business → Business
with_manager f b =
    let a = f (record b.manager { player = link_of b.media_source_ready b.player }) in
    record b {
      manager = a;
      player = put_back a.player b.player;
      media_source_ready = ready_of a.player b.media_source_ready;
    }

module _ (codec : Codec) (o : Outside) where
  -- What the thread of the business does first: an attempt to connect every five minutes, up to one
  -- that succeeds, and then the policy. The number is that of the waits.
  unfoldable pub connect_first : List Bool → Business → (Business × List Effect) × ℕ
  unfolding sync_connect with_manager request_ad_play_policy
  connect_first [] b = ((b, []), 0)
  connect_first (connected ∷ more) b =
      let ((c, out), is_up) = sync_connect connected b.endpoint b.client in
      let d = record b { client = c } in
      let ((e, rest), waits) = connect_first more d in
      if is_up
      then ((with_manager (request_ad_play_policy codec o) d, out), 0)
      else ((e, out ++ rest), suc waits)

module _ (p : Platform) where
  -- The bar server listens; a client has a player, unless there is none to be had.
  unfoldable pub bgn_business : Bool → Libraries → Business → Business
  unfolding create_instance new_server Server.start
  bgn_business allocated l b =
      let ((w, x), hr) = create_instance p allocated l b.world in
      if b.manager.is_bar_server
      then record b { server = some (Server.start new_server) }
      else record b { player = if failed hr then none else x; world = w }

  abbrev pub show_in : List Bool → Option Player → World → World × Option Player
  show_in answers none w = (w, none)
  show_in answers (some x) w = let (v, y) = set_video_window p answers w x in (v, some y)

  -- The window itself is for the player alone. `answers` are the values of the flag, as it is seen.
  unfoldable pub set_video_wnd : List Bool → Business → Business
  unfolding set_video_window
  set_video_wnd answers b =
      let (w, x) = show_in answers b.player b.world in record b { player = x; world = w }

  abbrev pub shut_player : Option Player → World → World × Option Player
  shut_player none w = (w, none)
  shut_player (some x) w = let (v, y) = (shutdown p w x).0 in (v, some y)

  unfoldable pub close_video_wnd : Business → Business
  unfolding shutdown
  close_video_wnd b =
      let (w, x) = shut_player b.player b.world in record b { player = x; world = w }

  abbrev pub end_player : Option Player → World → World × Option Player
  end_player none w = (w, none)
  end_player (some x) w = let (v, y) = (shutdown p w x).0 in (player_release p v y).0

  abbrev pub stop_server : Option Server → Option Server × Effects
  stop_server none = (none, [])
  stop_server (some v) = let (u, out) = Server.stop v in (some u, out)

  -- The two io_services are stopped and their threads joined before the player goes.
  unfoldable pub end_business : Business → (Business × List Effect) × Effects
  unfolding Client.stop Server.stop shutdown player_release
  end_business b =
      let (c, out) = Client.stop b.client in
      let (v, outs) = stop_server b.server in
      let (w, x) = end_player b.player b.world in
      (
        (
          record b {
            manager = record b.manager { is_end_business = true };
            client = c;
            server = v;
            player = x;
            world = w;
            net_running = false;
            biz_running = false;
          },
          out,
        ),
        outs,
      )
