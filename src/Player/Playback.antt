-- ===== src/Player/Playback.antt =====
-- player.cpp: opening a file, and Play, Pause, Stop, Repaint and ResizeVideo.
use ad_manager.Base.{ℕ, not, ◌&&◌, ◌||◌, Option, none, some, if◌then◌else◌}
use ad_manager.Player.Com.{
  World, Platform, Steps, ◌>>◌, ask_on, make, make_on, sub, change, made, mf_e_invalidrequest, s_ok,
  create_descriptor, create_byte_stream, safe_release, use_effect, e_unexpected, called, used,
  apply_out, failed, start_session_call, pause_session, stop_session_call, repaint_video,
  set_video_position, create_mem_stream, shutdown_source, set_topology, add_effect, acquired,
}
use ad_manager.Player.Media.{create_media_source, create_playback_topology}
use ad_manager.Player.State.{
  Player, PlayerState, state_is, is_null, closed, open_pending, started, paused, stopped,
}

pub record Opening : Type 0 where
  pub player : Player
  pub mem_stream : Option ℕ
  pub byte_stream : Option ℕ
  pub topology : Option ℕ
  pub source_pd : Option ℕ
  pub source_tmp : Option ℕ

abbrev pub set_source : Option ℕ → Opening → Opening
set_source s f = record f { player = record f.player { source = s } }

abbrev pub set_state : PlayerState → Opening → Opening
set_state s f = record f { player = record f.player { state = s } }

module _ (p : Platform) where
  -- StartPlayback.
  unfoldable pub start_playback : Steps Player
  start_playback w x =
      let v = made (use_effect start_session_call x.session) w in
      ((v, if failed (p.answer w.calls) then x else record x { state = started }), p.answer w.calls)

  unfoldable pub play : Steps Player
  unfolding start_playback
  play w x =
      let out = start_playback w x in
      if not (state_is x.state paused) && not (state_is x.state stopped)
      then ((w, x), mf_e_invalidrequest)
      else if is_null x.session || is_null x.source
      then ((w, x), e_unexpected)
      else out

  unfoldable pub pause : Steps Player
  pause w x =
      let v = made (use_effect pause_session x.session) w in
      if not (state_is x.state started)
      then ((w, x), mf_e_invalidrequest)
      else if is_null x.session || is_null x.source
      then ((w, x), e_unexpected)
      else (
        (v, if failed (p.answer w.calls) then x else record x { state = paused }),
        p.answer w.calls,
      )

  unfoldable pub stop : Steps Player
  stop w x =
      let v = made (use_effect stop_session_call x.session) w in
      if not (state_is x.state started) && not (state_is x.state paused)
      then ((w, x), mf_e_invalidrequest)
      else if is_null x.session
      then ((w, x), e_unexpected)
      else (
        (v, if failed (p.answer w.calls) then x else record x { state = stopped }),
        p.answer w.calls,
      )

  unfoldable pub repaint : Steps Player
  repaint w x =
      if is_null x.display
      then ((w, x), s_ok)
      else ((made (use_effect repaint_video x.display) w, x), p.answer w.calls)

  -- The rectangle is that of the window, for the display alone.
  unfoldable pub resize_video : Steps Player
  resize_video w x =
      if is_null x.display
      then ((w, x), s_ok)
      else ((made (use_effect set_video_position x.display) w, x), p.answer w.calls)

  -- SHCreateMemStream gives no HRESULT: a null pointer counts as -1.
  abbrev pub new_mem_stream : Steps Opening
  new_mem_stream w f =
      let v = made (called create_mem_stream) w in
      if failed (p.answer w.calls)
      then ((v, f), 0xFFFFFFFF)
      else ((add_effect (acquired w.calls) v, record f { mem_stream = some w.calls }), s_ok)

  -- The source that was played before is shut down.
  abbrev pub shutdown_old : Option ℕ → Steps Opening
  shutdown_old none w f = ((w, f), s_ok)
  shutdown_old (some n) w f = ((made (used shutdown_source n) w, f), p.answer w.calls)

  abbrev pub describe : Steps Opening
  describe =
      make_on p create_descriptor (λ f. f.player.source) (λ n f. record f { source_pd = some n })

  abbrev pub new_topology : Steps Opening
  new_topology =
      sub p (create_playback_topology p) (λ o f. record f { topology = apply_out o f.topology })

  abbrev pub drop_old : Steps Opening
  drop_old w f = shutdown_old f.source_tmp w f

  unfoldable pub present : Steps Opening
  unfolding create_playback_topology
  present =
      new_topology
      >> ask_on p set_topology (λ f. f.player.session)
      >> drop_old
      >> change p (set_state open_pending)

  -- From the new source on.
  unfoldable pub build : Steps Opening
  unfolding present
  build = describe >> present

  abbrev pub new_byte_stream : Steps Opening
  new_byte_stream = make p create_byte_stream (λ n f. record f { byte_stream = some n })

  abbrev pub new_source : Steps Opening
  new_source = sub p (create_media_source p) (λ o f. set_source (apply_out o f.player.source) f)

  unfoldable pub resolve : Steps Opening
  unfolding create_media_source build
  resolve = new_source >> build

  unfoldable pub open_steps : Steps Opening
  unfolding resolve
  open_steps = new_mem_stream >> new_byte_stream >> resolve

  abbrev pub end_open : (World × Opening) × ℕ → (World × Player) × ℕ
  end_open ((w, f), hr) = (
    (
      safe_release f.source_tmp (
          safe_release f.topology
            (safe_release f.source_pd (safe_release f.byte_stream (safe_release f.mem_stream w)))),
      if failed hr then record f.player { state = closed } else f.player,
    ),
    hr,
  )

  abbrev pub opening : Player → Opening
  opening x = record {
    player = x;
    mem_stream = none;
    byte_stream = none;
    topology = none;
    source_pd = none;
    source_tmp = x.source;
  }

  unfoldable pub open_mem : Steps Player
  unfolding open_steps
  open_mem w x = end_open (open_steps w (opening x))
