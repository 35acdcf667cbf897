-- ===== src/Manager/Lifecycle.antt =====
-- The beginning and the end of the business, and its configuration (AdManager.cpp, Logger.cpp).
use ad_manager.Base.{
  ℕ, zero, suc, ◌+◌, ◌≡◌, refl, ap, subst, Bool, true, false, Option, none, some, List, [], ◌∷◌,
  arith, if◌then◌else◌,
}
use ad_manager.Logger.{SeverityLevel, severity_of, init_logger}
use ad_manager.Message.Types.{Codec}
use ad_manager.Client.{Client, sync_connect, set_auto_reconnect}
use ad_manager.Client
use ad_manager.Server.{Server}
use ad_manager.Server
use ad_manager.Session.Types.{Session}
use ad_manager.Session.Ops.{start_session, stop_session}
use ad_manager.Player.Com.{World, Platform}
use ad_manager.Player.References.{gains, losses}
use ad_manager.Player.Messages.{acquisitions, releases, unhandled, are_posted, nothing_held}
use ad_manager.Player.State.{Player}
use ad_manager.Player.Events.{shutdown, close_session}
use ad_manager.Player.Owned.{shutdown-Kept}
use ad_manager.Player.Release.{player_release-Balanced}
use ad_manager.Player.Ledger.{IsOwned}
use ad_manager.Manager.Types.{Outside}
use ad_manager.Manager.Download.{download_ads}
use ad_manager.Manager.Requests.{request_ad_list, request_ad_play_policy}
use ad_manager.Manager.Services.{Job, net_job, biz_job, run_job, run_jobs, run_net, run_biz}
use ad_manager.Manager.Business.{
  Business, Config, set_config, with_manager, connect_first, end_business, end_player, stop_server,
}

-- Attempts that fail, before others.
abbrev pub refused : ℕ → List Bool → List Bool
refused zero more = more
refused (suc n) more = false ∷ refused n more

abbrev pub set_configs : List Config → Business → Business
set_configs [] b = b
set_configs (k ∷ ks) b = set_configs ks (set_config k b)

set_configs-log_level :
    (ks : List Config) (b : Business) (lvl : SeverityLevel)
    → b.log_level ≡ some lvl
    → (set_configs ks b).log_level ≡ some lvl
unfolding set_config init_logger
set_configs-log_level [] b lvl e = e
set_configs-log_level (k ∷ ks) b lvl e = set_configs-log_level ks (set_config k b) lvl (rw e refl)

-- Of several configurations, the first of which comes before the log was set up, the level of the log
-- is that of the first one, and the address, the bar, the role and the port are those of the last one.
set_configs-first_last :
    (first : Config) (ks : List Config) (last : Config) (b : Business)
    → b.log_level ≡ none
    → let d = set_config last (set_configs ks (set_config first b)) in
      (d.log_level ≡ some (severity_of first.log_lvl))
      × (d.endpoint ≡ last.peer)
      × (d.manager.bar_id ≡ last.bar_id)
      × (d.manager.is_bar_server ≡ last.is_bar_server)
      × (d.manager.listen_port ≡ last.listen_port)
unfolding set_config init_logger
set_configs-first_last first ks last b e = (
  rw (set_configs-log_level ks (set_config first b) (severity_of first.log_lvl) (rw e refl)) refl,
  refl,
  refl,
  refl,
  refl,
)

module _ (codec : Codec) (o : Outside) where
  -- However many attempts to connect fail before one succeeds, the business waits once for each, and
  -- is then as if that attempt had been the first: the client has started its session, and the policy
  -- is asked for.
  connect_first-reaches :
      (n : ℕ) (more : List Bool) (b : Business)
      → let ((c, out), is_up) = sync_connect true b.endpoint b.client in
        connect_first codec o (refused n (true ∷ more)) b
        ≡ ((with_manager (request_ad_play_policy codec o) (record b { client = c }), out), n)
  unfolding connect_first sync_connect start_session
  connect_first-reaches zero more b = refl
  connect_first-reaches (suc n) more b =
      rw
        (connect_first-reaches n more
          (record b { client = record b.client { endpoint = b.endpoint } }))
        refl

-- The sessions that a server has, if there is one.
abbrev pub pool_of : Option Server → List (ℕ × Session)
pool_of none = []
pool_of (some v) = v.session_pool

module _ (codec : Codec) (m : Platform) where
  run_job-stopped :
      (j : Job) (b : Business)
      → b.net_running ≡ false
      → b.biz_running ≡ false
      → run_job codec j b ≡ ((b, []), [])
  unfolding run_job
  run_job-stopped (net_job j) b e e' = ap (λ t. if t then run_net codec j b else ((b, []), [])) e
  run_job-stopped (biz_job o j) b e e' =
      ap (λ t. if t then (run_biz codec o j b, []) else ((b, []), [])) e'

  run_jobs-stopped :
      (jobs : List Job) (b : Business)
      → b.net_running ≡ false
      → b.biz_running ≡ false
      → run_jobs codec jobs b ≡ ((b, []), [])
  unfolding run_jobs
  run_jobs-stopped [] b e e' = refl
  run_jobs-stopped (j ∷ js) b e e' = rw (run_job-stopped j b e e', run_jobs-stopped js b e e') refl

  end_player-Balanced :
      (p : ℕ) (w : World) (x : Player)
      → x.ref_count ≡ 1
      → IsOwned m p (w, x)
      → let (v, left) = end_player m (some x) w in (left ≡ none) × (gains p v.log ≡ losses p v.log)
  unfolding shutdown close_session
  end_player-Balanced p w x e owned =
      let (v, y) = (shutdown m w x).0 in
      player_release-Balanced m p v y e (omega (arith, shutdown-Kept m p w x))

  pool_of-stop_server : (v : Option Server) → pool_of (stop_server m v).0 ≡ []
  unfolding Server.stop
  pool_of-stop_server none = refl
  pool_of-stop_server (some v) = refl

  -- After the end of the business, with a player to which there is one reference and whose fields name
  -- just what it holds, and if messages come only when they were posted: the player is gone, and a
  -- reference to each object was acquired just as often as one was released and as messages with the
  -- object are still to be handled; the client's session is closed and has no hook, and the server has
  -- no session; calls of the refreshes of the policy and of the list and of the download change
  -- nothing; and no job of the two io_services, such as a wait of the reconnect timer, an attempt to
  -- connect or a timer of the business that was under way, changes anything or makes a call.
  pub end_business-over :
      (b : Business) (x : Player) (p : ℕ) (o : Outside) (jobs : List Job)
      → b.player ≡ some x
      → x.ref_count ≡ 1
      → IsOwned m p (b.world, x)
      → are_posted p (end_business m b).0.0.world.log ≡ true
      → let ((d, out), outs) = end_business m b in
        (d.player ≡ none)
        × (acquisitions p d.world.log ≡ releases p d.world.log + unhandled p d.world.log)
        × (d.client.session.after_net_error ≡ none)
        × (d.client.session.is_connected ≡ false)
        × (pool_of d.server ≡ [])
        × (request_ad_play_policy codec o d.manager ≡ d.manager)
        × (request_ad_list codec o d.manager ≡ d.manager)
        × (download_ads codec o d.manager ≡ d.manager)
        × (run_jobs codec jobs d ≡ ((d, []), []))
  unfolding end_business Client.stop set_auto_reconnect stop_session request_ad_play_policy
      request_ad_list download_ads
  end_business-over b x p o jobs e e' owned come =
      let Posted : Option Player → Type 0 =
        λ y. are_posted p (end_player m y b.world).0.log ≡ true in
      let (gone, even) = end_player-Balanced p b.world x e' owned in
      let left = nothing_held p (end_player m (some x) b.world).0.log (subst Posted e come) even in
      rw e (
        gone,
        left,
        refl,
        refl,
        pool_of-stop_server b.server,
        refl,
        refl,
        refl,
        run_jobs-stopped jobs _ refl refl,
      )
