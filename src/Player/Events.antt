-- ===== src/Player/Events.antt =====
-- player.cpp: the media session, its events, and the end of the player.
use ad_manager.Base.{ℕ, false, Option, none, some, if◌then◌else◌}
use ad_manager.Manager.Types.{PlayItem}
use ad_manager.Player.{notify_play}
use ad_manager.Player.Com.{
  topology_ready, topology_started_source, topology_ended, topology_other, session_topology_status,
  end_of_presentation, new_presentation, session_ended, session_closed, other_event, World,
  Platform, Steps, ◌>>◌, ask_on, make, make_on, sub, change, s_ok, Api, safe_release,
  create_media_session, made, apply_out, get_service, ask, TopologyStatus, add_effect, EventType,
  e_pointer, used, failed, begin_get_event, called, get_topology_id, clear_topology,
  get_topology_status, set_topology, slept, get_type, close_session_call, shutdown_session,
  shutdown_platform, get_full_topology, get_status, shutdown_source,
}
use ad_manager.Player.Media.{get_event_object, create_playback_topology}
use ad_manager.Player.Callback.{callbacks}
use ad_manager.Player.State.{Player, closed, ready, open_pending, stopped, closing}
use ad_manager.Player.Playback.{start_playback, open_mem}

pub record TopologyEvent : Type 0 where
  pub player : Player
  pub topology : Option ℕ
  pub full_topo : Option ℕ

pub record PresentationEvent : Type 0 where
  pub player : Player
  pub pd : Option ℕ
  pub topology : Option ℕ

module _ (p : Platform) where
  -- The wait for the session's end is over after five seconds at the latest. The callbacks that come
  -- meanwhile find the state Closing.
  unfoldable pub close_call : Option ℕ → World → Player → World × ℕ
  unfolding callbacks
  close_call none w x = (w, s_ok)
  close_call (some n) w x =
      let v = made (used close_session_call n) w in
      let y = record x { session = some n; state = closing } in
      let u = callbacks p (p.callbacks_in_wait w.calls) v y in
      (if failed (p.answer w.calls) then v else add_effect slept u, p.answer w.calls)

  -- A method whose result is not looked at.
  abbrev pub use_it : Api → Option ℕ → World → World
  use_it api none w = w
  use_it api (some n) w = made (used api n) w

  unfoldable pub close_session : Steps Player
  unfolding close_call
  close_session w x =
      let y = record x { display = none } in
      let (v, hr) = close_call x.session (safe_release x.display w) y in
      let u =
        if failed hr
        then v
        else use_it shutdown_session x.session (use_it shutdown_source x.source v) in
      (
        (
          safe_release x.session (safe_release x.source u),
          record x { session = none; source = none; display = none; state = closed },
        ),
        hr,
      )

  -- What follows when the old session is closed.
  unfoldable pub begin_session : Steps Player
  begin_session =
      make p create_media_session (λ n x. record x { session = some n })
      >> ask_on p begin_get_event (λ x. x.session)
      >> change p (λ x. record x { state = ready })

  unfoldable pub create_session : Steps Player
  unfolding close_session begin_session
  create_session = close_session >> begin_session

  -- Shutdown.
  unfoldable pub shutdown : Steps Player
  unfolding close_session
  shutdown w x =
      let ((v, y), hr) = close_session w x in
      (
        (
          if x.loaded then made (called shutdown_platform) v else v,
          record y { close_event = false },
        ),
        hr,
      )

  -- NotifyPlay: the item whose turn it is goes to the end of the list, and is opened.
  abbrev pub open_item : Option PlayItem → World → Player → World × Player
  open_item none w x = (w, x)
  open_item (some it) w x = (open_mem p w x).0

  unfoldable pub play_next : World → Player → World × Player
  unfolding open_mem notify_play
  play_next w x =
      let (items, it) = notify_play x.play_list in open_item it w (record x { play_list = items })

  abbrev pub get_topology : Steps TopologyEvent
  get_topology = sub p (get_event_object p) (λ o f. record f { topology = apply_out o f.topology })

  abbrev pub drop_display : Steps TopologyEvent
  drop_display w f = (
    (safe_release f.player.display w, record f { player = record f.player { display = none } }),
    s_ok,
  )

  -- The result of MFGetService is not looked at.
  abbrev pub get_display : Steps TopologyEvent
  get_display w f = (
    (make p get_service (λ n f. record f { player = record f.player { display = some n } }) w f).0,
    s_ok,
  )

  abbrev pub start_it : Steps TopologyEvent
  start_it w f =
      let ((v, y), hr) = start_playback p w f.player in ((v, record f { player = y }), hr)

  -- The display is the new topology's, and the playback starts.
  unfoldable pub show : Steps TopologyEvent
  unfolding start_playback
  show = drop_display >> get_display >> start_it

  abbrev pub get_full : Steps TopologyEvent
  get_full =
      make_on p get_full_topology (λ f. f.player.session) (λ n f. record f { full_topo = some n })

  unfoldable pub take_full : Steps TopologyEvent
  unfolding show
  take_full = get_full >> show

  unfoldable pub find_topology : Steps TopologyEvent
  unfolding take_full
  find_topology = ask p get_topology_id >> take_full

  unfoldable pub on_ready : Steps TopologyEvent
  unfolding get_event_object find_topology
  on_ready = get_topology >> find_topology

  abbrev pub on_status : TopologyStatus → Steps TopologyEvent
  on_status topology_ready = on_ready
  on_status topology_started_source = change p (λ f. f)
  on_status topology_ended = ask_on p clear_topology (λ f. f.player.session)
  on_status topology_other = change p (λ f. f)

  abbrev pub read_status : Steps TopologyEvent
  read_status w f = (ask p get_topology_status >> on_status (p.topology_status w.calls)) w f

  abbrev pub end_status : (World × TopologyEvent) × ℕ → (World × Player) × ℕ
  end_status ((w, f), hr) = ((safe_release f.full_topo (safe_release f.topology w), f.player), hr)

  unfoldable pub on_topology_status : Steps Player
  unfolding on_ready
  on_topology_status w x =
      end_status (read_status w (record { player = x; topology = none; full_topo = none }))

  unfoldable pub on_presentation_ended : Steps Player
  on_presentation_ended w x = ((w, record x { state = stopped }), s_ok)

  unfoldable pub set_new_topology : Steps PresentationEvent
  unfolding create_playback_topology
  set_new_topology =
      sub p (create_playback_topology p) (λ o f. record f { topology = apply_out o f.topology })
      >> ask_on p set_topology (λ f. f.player.session)
      >> change p (λ f. record f { player = record f.player { state = open_pending } })

  abbrev pub get_pd : Steps PresentationEvent
  get_pd = sub p (get_event_object p) (λ o f. record f { pd = apply_out o f.pd })

  unfoldable pub presentation_steps : Steps PresentationEvent
  unfolding get_event_object set_new_topology
  presentation_steps = get_pd >> set_new_topology

  abbrev pub end_presentation : (World × PresentationEvent) × ℕ → (World × Player) × ℕ
  end_presentation ((w, f), hr) = ((safe_release f.pd (safe_release f.topology w), f.player), s_ok)

  unfoldable pub on_new_presentation : Steps Player
  unfolding presentation_steps
  on_new_presentation w x =
      end_presentation (presentation_steps w (record { player = x; pd = none; topology = none }))

  abbrev pub on_session_ended : Steps Player
  on_session_ended w x = (play_next (add_effect slept w) x, s_ok)

  unfoldable pub on_event : EventType → Steps Player
  unfolding on_topology_status on_presentation_ended on_new_presentation play_next
  on_event session_topology_status = on_topology_status
  on_event end_of_presentation = on_presentation_ended
  on_event new_presentation = on_new_presentation
  on_event session_ended = on_session_ended
  on_event session_closed = change p (λ x. x)
  on_event other_event = change p (λ x. x)

  -- The status of an event is that of the operation that it tells of.
  abbrev pub read_event_status : Steps Player
  read_event_status w x =
      let v = made (called get_status) w in
      ((v, x), if failed (p.answer w.calls) then p.answer w.calls else p.event_status w.calls)

  abbrev pub read_event : Steps Player
  read_event w x = (ask p get_type >> read_event_status >> on_event (p.event_type w.calls)) w x

  abbrev pub end_event : ℕ → (World × Player) × ℕ → (World × Player) × ℕ
  end_event e ((w, x), hr) = ((safe_release (some e) w, x), hr)

  unfoldable pub handle_event : Option ℕ → Steps Player
  unfolding on_event
  handle_event none w x = ((w, x), e_pointer)
  handle_event (some e) w x = end_event e (read_event w x)
