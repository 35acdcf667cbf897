-- ===== src/Manager/Services.antt =====
-- What the threads of the two io_services run (AdManager.cpp: _iosNet and _iosBiz; TcpClient.cpp, the
-- handlers of asyncConnect): a job is one handler, which runs whole.
use ad_manager.Base.{ℕ, Bool, Option, none, some, List, [], ◌∷◌, ◌++◌, if◌then◌else◌}
use ad_manager.Message.Types.{Codec}
use ad_manager.Session.Types.{Hook, Effect, Event, reconnect, leave_pool}
use ad_manager.Session.Ops.{step}
use ad_manager.Session.Hooks.{hooks}
use ad_manager.Client.{Client, async_connect, on_connect}
use ad_manager.Server.{Server, Effects, Happening, server_step}
use ad_manager.Manager.Types.{Outside}
use ad_manager.Manager.Download.{download_ads}
use ad_manager.Manager.Requests.{request_ad_list, request_ad_play_policy}
use ad_manager.Manager.Business.{Business, with_manager, connect_first}

-- Of the network: the reconnect timer expires, an async_connect ends, something happens to the
-- client's session or to the server.
pub data NetJob : Type 0 where
  timer_expires : NetJob
  connect_ends : Bool → NetJob
  client_event : Event → NetJob
  server_event : Happening → NetJob

-- Of the business: what bgnBusiness posts, with how its attempts end, and the three timers.
pub data BizJob : Type 0 where
  begins : List Bool → BizJob
  policy_due ad_list_due download_due : BizJob

-- A client whose session has run these hooks.
unfoldable pub run_client_hooks : List Hook → Client → Client
unfolding async_connect
run_client_hooks [] c = c
run_client_hooks (reconnect ∷ hs) c = run_client_hooks hs (async_connect c.endpoint c)
run_client_hooks (leave_pool ∷ hs) c = run_client_hooks hs c

-- An expired timer calls its function, if a wait was under way.
abbrev pub if_armed : Option ℕ → Business → Business → Business
if_armed none idle due = idle
if_armed (some seconds) idle due = due

module _ (codec : Codec) where
  -- Something happens to the session of the client.
  unfoldable pub on_client_event : Event → Client → Client × List Effect
  unfolding run_client_hooks
  on_client_event e c =
      let (s, out) = step codec c.session e in
      (run_client_hooks (hooks out) (record c { session = s }), out)

  abbrev pub serve : Happening → Option Server → Option Server × Effects
  serve h none = (none, [])
  serve h (some v) = let (u, out) = server_step codec v h in (some u, out)

  unfoldable pub run_net : NetJob → Business → (Business × List Effect) × Effects
  unfolding async_connect on_connect on_client_event
  run_net timer_expires b =
      let c = async_connect b.client.endpoint b.client in
      ((if_armed b.client.reconnect_timer b (record b { client = c }), []), [])
  run_net (connect_ends connected) b =
      let (c, out) = on_connect connected b.client in
      if b.client.connecting then ((record b { client = c }, out), []) else ((b, []), [])
  run_net (client_event e) b =
      let (c, out) = on_client_event e b.client in ((record b { client = c }, out), [])
  run_net (server_event h) b =
      let (v, outs) = serve h b.server in ((record b { server = v }, []), outs)

  unfoldable pub run_biz : Outside → BizJob → Business → Business × List Effect
  unfolding connect_first with_manager
  run_biz o (begins attempts) b = (connect_first codec o attempts b).0
  run_biz o policy_due b =
      let c = with_manager (λ a. record a { timer_policy = none }) b in
      (if_armed b.manager.timer_policy b (with_manager (request_ad_play_policy codec o) c), [])
  run_biz o ad_list_due b =
      let c = with_manager (λ a. record a { timer_ad_list = none }) b in
      (if_armed b.manager.timer_ad_list b (with_manager (request_ad_list codec o) c), [])
  run_biz o download_due b =
      let c = with_manager (λ a. record a { timer_download = none }) b in
      (if_armed b.manager.timer_download b (with_manager (download_ads codec o) c), [])

-- A job of either, with what lies outside when it runs.
pub data Job : Type 0 where
  net_job : NetJob → Job
  biz_job : Outside → BizJob → Job

module _ (codec : Codec) where
  -- An io_service that was stopped runs no job.
  unfoldable pub run_job : Job → Business → (Business × List Effect) × Effects
  unfolding run_net run_biz
  run_job (net_job j) b = let r = run_net codec j b in if b.net_running then r else ((b, []), [])
  run_job (biz_job o j) b =
      let r = run_biz codec o j b in if b.biz_running then (r, []) else ((b, []), [])

  unfoldable pub run_jobs : List Job → Business → (Business × List Effect) × Effects
  unfolding run_job
  run_jobs [] b = ((b, []), [])
  run_jobs (j ∷ js) b =
      let ((c, out), outs) = run_job j b in
      let ((d, rest), others) = run_jobs js c in ((d, out ++ rest), outs ++ others)
