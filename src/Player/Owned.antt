-- ===== src/Player/Owned.antt =====
-- The player holds a reference to just the objects that its fields name (player.cpp).
use ad_manager.Base.{ℕ, ◌+◌, ◌≡◌, refl, false, none, arith}
use ad_manager.Player.Com.{
  topology_ready, topology_started_source, topology_ended, topology_other, World, Platform, Steps,
  ◌>>◌, failed, ask, TopologyStatus, get_topology_id, get_topology_status, safe_release,
}
use ad_manager.Player.References.{
  gains, losses, holds, get_event_object-Grows, create_playback_topology-Grows,
}
use ad_manager.Player.Posted.{close_call-Grows}
use ad_manager.Player.State.{Player}
use ad_manager.Player.Playback.{play, pause, stop, start_playback}
use ad_manager.Player.Events.{
  get_full, take_full, get_topology, get_pd, find_topology, show, set_new_topology, begin_session,
  close_session, create_session, shutdown, on_ready, on_topology_status, presentation_steps,
  on_new_presentation, TopologyEvent, PresentationEvent, end_presentation, end_status, on_status,
  read_status,
}

module _ (m : Platform) (p : ℕ) where
  abbrev pub fields : Player → ℕ
  fields x = holds p x.session + holds p x.source + holds p x.display

  -- A step changes the references that are held as it changes those that are named.
  abbrev pub Kept : {F : Type 0} → (F → ℕ) → World → F → (World × F) × ℕ → Type 0
  Kept held w f ((v, g), hr) =
      gains p v.log + losses p w.log + held f ≡ gains p w.log + losses p v.log + held g

  pub Kept-then :
      {F : Type 0} (held : F → ℕ) (a b : Steps F) (w : World) (f : F)
      → Kept held w f (a w f)
      → (failed (a w f).1 ≡ false → Kept held (a w f).0.0 (a w f).0.1 (b (a w f).0.0 (a w f).0.1))
      → Kept held w f ((a >> b) w f)
  Kept-then held a b w f first second = ground arith

  pub play-Kept : (w : World) (x : Player) → Kept fields w x (play m w x)
  unfolding play start_playback
  play-Kept w x = ground arith

  pub pause-Kept : (w : World) (x : Player) → Kept fields w x (pause m w x)
  unfolding pause
  pause-Kept w x = ground arith

  pub stop-Kept : (w : World) (x : Player) → Kept fields w x (stop m w x)
  unfolding stop
  stop-Kept w x = ground arith

  pub close_session-Kept : (w : World) (x : Player) → Kept fields w x (close_session m w x)
  unfolding close_session
  close_session-Kept w x =
      let y : Player = record x { display = none } in
      ground (arith, close_call-Grows m p x.session (safe_release x.display w) y)

  pub shutdown-Kept : (w : World) (x : Player) → Kept fields w x (shutdown m w x)
  unfolding shutdown
  shutdown-Kept w x = ground (arith, close_session-Kept w x)

  pub close_session-clear :
      (w : World) (x : Player)
      → ((close_session m w x).0.1.session ≡ none)
        × ((close_session m w x).0.1.source ≡ none)
        × ((close_session m w x).0.1.display ≡ none)
  unfolding close_session
  close_session-clear w x = (refl, refl, refl)

  begin_session-Kept :
      (w : World) (x : Player) → x.session ≡ none → Kept fields w x (begin_session m w x)
  unfolding begin_session
  begin_session-Kept w x e = ground arith

  pub create_session-Kept : (w : World) (x : Player) → Kept fields w x (create_session m w x)
  unfolding create_session
  create_session-Kept w x =
      Kept-then fields (close_session m) (begin_session m) w x (close_session-Kept w x)
        (λ e. begin_session-Kept _ _ (close_session-clear w x).0)

  abbrev topology_held : TopologyEvent → ℕ
  topology_held f = fields f.player + holds p f.topology + holds p f.full_topo

  show-Kept : (w : World) (f : TopologyEvent) → Kept topology_held w f (show m w f)
  unfolding show start_playback
  show-Kept w f = ground arith

  take_full-Kept :
      (w : World) (f : TopologyEvent)
      → f.full_topo ≡ none
      → Kept topology_held w f (take_full m w f)
  unfolding take_full
  take_full-Kept w f e =
      let ((v, g), hr) = get_full m w f in
      Kept-then topology_held (get_full m) (show m) w f (ground arith) (λ ok. show-Kept v g)

  find_topology-Kept :
      (w : World) (f : TopologyEvent)
      → f.full_topo ≡ none
      → Kept topology_held w f (find_topology m w f)
  unfolding find_topology
  find_topology-Kept w f e =
      let ((v, g), hr) = ask m get_topology_id w f in
      Kept-then topology_held (ask m get_topology_id) (take_full m) w f (ground arith)
        (λ ok. take_full-Kept v g e)

  on_ready-Kept :
      (w : World) (f : TopologyEvent)
      → f.topology ≡ none
      → f.full_topo ≡ none
      → Kept topology_held w f (on_ready m w f)
  unfolding on_ready
  on_ready-Kept w f e e' =
      Kept-then topology_held (get_topology m) (find_topology m) w f
        (ground (arith, get_event_object-Grows m p w)) (λ ok. find_topology-Kept _ _ e')

  abbrev presentation_held : PresentationEvent → ℕ
  presentation_held f = fields f.player + holds p f.pd + holds p f.topology

  set_new_topology-Kept :
      (w : World) (f : PresentationEvent)
      → f.topology ≡ none
      → Kept presentation_held w f (set_new_topology m w f)
  unfolding set_new_topology
  set_new_topology-Kept w f e = ground (arith, create_playback_topology-Grows m p w)

  presentation-Kept :
      (w : World) (f : PresentationEvent)
      → f.pd ≡ none
      → f.topology ≡ none
      → Kept presentation_held w f (presentation_steps m w f)
  unfolding presentation_steps
  presentation-Kept w f e e' =
      Kept-then presentation_held (get_pd m) (set_new_topology m) w f
        (ground (arith, get_event_object-Grows m p w)) (λ ok. set_new_topology-Kept _ _ e')

  -- The locals are released at the end.
  end_presentation-Kept :
      (w : World) (x : Player) (r : (World × PresentationEvent) × ℕ)
      → Kept presentation_held w (record { player = x; pd = none; topology = none }) r
      → Kept fields w x (end_presentation m r)
  end_presentation-Kept w x ((v, g), hr) k = ground arith

  end_status-Kept :
      (w : World) (x : Player) (r : (World × TopologyEvent) × ℕ)
      → Kept topology_held w (record { player = x; topology = none; full_topo = none }) r
      → Kept fields w x (end_status m r)
  end_status-Kept w x ((v, g), hr) k = ground arith

  read_status-Kept :
      (s : TopologyStatus) (w : World) (f : TopologyEvent)
      → f.topology ≡ none
      → f.full_topo ≡ none
      → Kept topology_held w f (on_status m s w f)
  read_status-Kept topology_ready w f e e' = on_ready-Kept w f e e'
  read_status-Kept topology_started_source w f e e' = refl
  read_status-Kept topology_ended w f e e' = ground arith
  read_status-Kept topology_other w f e e' = refl

  pub on_topology_status-Kept :
      (w : World) (x : Player) → Kept fields w x (on_topology_status m w x)
  unfolding on_topology_status
  on_topology_status-Kept w x =
      let f : TopologyEvent = record { player = x; topology = none; full_topo = none } in
      let status = m.topology_status w.calls in
      let ((v, g), hr) = ask m get_topology_status w f in
      end_status-Kept w x (read_status m w f) (
        Kept-then topology_held (ask m get_topology_status) (on_status m status) w f (ground arith)
          (λ ok. read_status-Kept status v g refl refl))

  pub on_new_presentation-Kept :
      (w : World) (x : Player) → Kept fields w x (on_new_presentation m w x)
  unfolding on_new_presentation
  on_new_presentation-Kept w x =
      let f : PresentationEvent = record { player = x; pd = none; topology = none } in
      end_presentation-Kept w x (presentation_steps m w f) (presentation-Kept w f refl refl)
