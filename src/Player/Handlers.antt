-- ===== src/Player/Handlers.antt =====
-- The handlers of the session's events keep the session, and call through no null pointer while there
-- is one (player.cpp).
use ad_manager.Base.{ℕ, ◌≡◌, refl, none, some, arith}
use ad_manager.Player.Com.{
  World, Platform, made, called, add_effect, slept, ask, get_topology_id, get_topology_status,
  TopologyStatus, topology_ready, topology_started_source, topology_ended, topology_other,
  EventType, session_topology_status, end_of_presentation, new_presentation, session_ended,
  session_closed, other_event, get_status, get_type,
}
use ad_manager.Player.State.{Player}
use ad_manager.Player.Playback.{start_playback}
use ad_manager.Player.Events.{
  get_full, take_full, get_topology, get_pd, find_topology, show, set_new_topology, on_ready,
  on_topology_status, presentation_steps, on_new_presentation, on_event, handle_event,
  TopologyEvent, PresentationEvent, end_presentation, end_status, on_status, read_status,
}
use ad_manager.Player.Guards.{create_playback_topology-IsQuiet, get_event_object-IsQuiet}
use ad_manager.Player.Faults.{Stays, Stays-then, itself, play_next-Stays}

module _ (m : Platform) (s : ℕ) where
  abbrev of_topology : TopologyEvent → Player
  of_topology f = f.player

  show-Stays :
      (w : World) (f : TopologyEvent)
      → f.player.session ≡ some s
      → Stays m s of_topology w (show m w f)
  unfolding show start_playback
  show-Stays w f e = ground arith

  take_full-Stays :
      (w : World) (f : TopologyEvent)
      → f.player.session ≡ some s
      → Stays m s of_topology w (take_full m w f)
  unfolding take_full
  take_full-Stays w f e =
      let ((v, g), hr) = get_full m w f in
      Stays-then m s of_topology (get_full m) (show m) w f (ground arith)
        (λ ok. show-Stays v g (ground arith))

  on_ready-Stays :
      (w : World) (f : TopologyEvent)
      → f.player.session ≡ some s
      → Stays m s of_topology w (on_ready m w f)
  unfolding on_ready find_topology
  on_ready-Stays w f e =
      let ((v, g), hr) = get_topology m w f in
      let ((u, h), hr') = ask m get_topology_id v g in
      Stays-then m s of_topology (get_topology m) (find_topology m) w f
        (ground (arith, get_event_object-IsQuiet m w))
        (λ ok.
          Stays-then m s of_topology (ask m get_topology_id) (take_full m) v g (ground arith)
            (λ ok'. take_full-Stays u h e))

  on_status-Stays :
      (t : TopologyStatus) (w : World) (f : TopologyEvent)
      → f.player.session ≡ some s
      → Stays m s of_topology w (on_status m t w f)
  on_status-Stays topology_ready w f e = on_ready-Stays w f e
  on_status-Stays topology_started_source w f e = (e, refl)
  on_status-Stays topology_ended w f e = ground arith
  on_status-Stays topology_other w f e = (e, refl)

  end_status-Stays :
      (w : World) (r : (World × TopologyEvent) × ℕ)
      → Stays m s of_topology w r
      → Stays m s (itself m s) w (end_status m r)
  end_status-Stays w ((v, f), hr) k = ground arith

  on_topology_status-Stays :
      (w : World) (x : Player)
      → x.session ≡ some s
      → Stays m s (itself m s) w (on_topology_status m w x)
  unfolding on_topology_status
  on_topology_status-Stays w x e =
      let f : TopologyEvent = record { player = x; topology = none; full_topo = none } in
      let status = m.topology_status w.calls in
      let ((v, g), hr) = ask m get_topology_status w f in
      end_status-Stays w (read_status m w f) (
        Stays-then m s of_topology (ask m get_topology_status) (on_status m status) w f
          (ground arith) (λ ok. on_status-Stays status v g e))

  abbrev of_presentation : PresentationEvent → Player
  of_presentation f = f.player

  set_new_topology-Stays :
      (w : World) (f : PresentationEvent)
      → f.player.session ≡ some s
      → Stays m s of_presentation w (set_new_topology m w f)
  unfolding set_new_topology
  set_new_topology-Stays w f e = ground (arith, create_playback_topology-IsQuiet m w)

  presentation-Stays :
      (w : World) (f : PresentationEvent)
      → f.player.session ≡ some s
      → Stays m s of_presentation w (presentation_steps m w f)
  unfolding presentation_steps
  presentation-Stays w f e =
      let ((v, g), hr) = get_pd m w f in
      Stays-then m s of_presentation (get_pd m) (set_new_topology m) w f
        (ground (arith, get_event_object-IsQuiet m w)) (λ ok. set_new_topology-Stays v g e)

  end_presentation-Stays :
      (w : World) (r : (World × PresentationEvent) × ℕ)
      → Stays m s of_presentation w r
      → Stays m s (itself m s) w (end_presentation m r)
  end_presentation-Stays w ((v, f), hr) k = ground arith

  on_new_presentation-Stays :
      (w : World) (x : Player)
      → x.session ≡ some s
      → Stays m s (itself m s) w (on_new_presentation m w x)
  unfolding on_new_presentation
  on_new_presentation-Stays w x e =
      let f : PresentationEvent = record { player = x; pd = none; topology = none } in
      end_presentation-Stays w (presentation_steps m w f) (presentation-Stays w f e)

  on_event-Stays :
      (t : EventType) (w : World) (x : Player)
      → x.session ≡ some s
      → Stays m s (itself m s) w (on_event m t w x)
  unfolding on_event
  on_event-Stays session_ended w x e = play_next-Stays m s (add_effect slept w) x e
  on_event-Stays session_topology_status w x e = on_topology_status-Stays w x e
  on_event-Stays end_of_presentation w x e = (e, refl)
  on_event-Stays new_presentation w x e = on_new_presentation-Stays w x e
  on_event-Stays session_closed w x e = (e, refl)
  on_event-Stays other_event w x e = (e, refl)

  pub handle_event-Stays :
      (n : ℕ) (w : World) (x : Player)
      → x.session ≡ some s
      → Stays m s (itself m s) w (handle_event m (some n) w x)
  unfolding handle_event
  handle_event-Stays n w x e =
      let v = made (called get_status) (made (called get_type) w) in
      ground (arith, on_event-Stays (m.event_type w.calls) v x e)
