-- ===== src/Player/Commands.antt =====
-- What the commands do to the player's state (player.cpp, player.h).
use ad_manager.Base.{
  ℕ, ◌≡◌, refl, sym, ◌⊎◌, inl, inr, Bool, true, false, not, ◌&&◌, ◌||◌, arith, if◌then◌else◌,
}
use ad_manager.Player.Com.{
  World, Platform, failed, made, use_effect, start_session_call, mf_e_invalidrequest, e_unexpected,
  pause_session, stop_session_call,
}
use ad_manager.Player.State.{
  state_is, Player, PlayerState, is_null, started, paused, stopped, ready, closed, open_pending,
  closing,
}
use ad_manager.Player.Playback.{play, pause, stop, start_playback}
use ad_manager.Player.Ledger.{
  Action, to_play, to_pause, to_stop, to_repaint, to_resize, next_item, new_session, shut,
  on_callback, on_message, listed, shown, act,
}

-- The state diagram: which command moves from which state to which.
pub data Turn : Action → PlayerState → PlayerState → Type 0 where
  paused_plays : Turn to_play paused started
  stopped_plays : Turn to_play stopped started
  started_pauses : Turn to_pause started paused
  started_stops : Turn to_stop started stopped
  paused_stops : Turn to_stop paused stopped

-- No move of the diagram for the command starts in the state.
abbrev pub NoTurn : Action → PlayerState → Type 0
NoTurn a s = (t : PlayerState) → ¬ Turn a s t

-- What a command needs besides its state: Stop a session, the others also a source.
abbrev pub lacks : Action → Player → Bool
lacks to_stop x = is_null x.session
lacks _ x = is_null x.session || is_null x.source

abbrev pub is_command : Action → Bool
is_command to_play = true
is_command to_pause = true
is_command to_stop = true
is_command to_repaint = false
is_command to_resize = false
is_command next_item = false
is_command new_session = false
is_command shut = false
is_command on_callback = false
is_command (on_message e) = false
is_command (listed items) = false
is_command (shown answers) = false

module _ (m : Platform) where
  -- A move of the diagram, to which the session has agreed, and nothing else of the player changes.
  abbrev pub Moves : Action → World → Player → Player → Type 0
  Moves a w x y =
      (t : PlayerState) × Turn a x.state t
      × (lacks a x ≡ false)
      × (failed (m.answer w.calls) ≡ false)
      × (y ≡ record x { state = t })

  -- Nothing changes, for one of three reasons.
  abbrev pub Stays : Action → World → Player → Player → Type 0
  Stays a w x y =
      (y ≡ x) × (NoTurn a x.state ⊎ ((lacks a x ≡ true) ⊎ (failed (m.answer w.calls) ≡ true)))

  abbrev pub Turns : Action → World → Player → Player → Type 0
  Turns a w x y = Moves a w x y ⊎ Stays a w x y

  -- A guard, then a second one, then the answer of the session.
  guarded-Turns :
      (a : Action) (t : PlayerState) (w v : World) (x : Player) (refused missing bad : Bool)
      (k l n : ℕ)
      → (refused ≡ false → Turn a x.state t)
      → (refused ≡ true → NoTurn a x.state)
      → missing ≡ lacks a x
      → bad ≡ failed (m.answer w.calls)
      → let r : (World × Player) × ℕ =
          (if refused
            then ((w, x), k)
            else if missing
            then ((w, x), l)
            else ((v, if bad then x else record x { state = t }), n)) in
        Turns a w x r.0.1
  guarded-Turns a t w v x true missing bad k l n moves halts e f = inr (refl, inl (halts refl))
  guarded-Turns a t w v x false true bad k l n moves halts e f = inr (refl, inr (inl (sym e)))
  guarded-Turns a t w v x false false true k l n moves halts e f = inr (refl, inr (inr (sym f)))
  guarded-Turns a t w v x false false false k l n moves halts e f =
      inl (t, moves refl, sym e, sym f, refl)

  play-Turn :
      (s : PlayerState)
      → not (state_is s paused) && not (state_is s stopped) ≡ false
      → Turn to_play s started
  play-Turn paused e = paused_plays
  play-Turn stopped e = stopped_plays
  play-Turn closed e = absurd (ground arith)
  play-Turn ready e = absurd (ground arith)
  play-Turn open_pending e = absurd (ground arith)
  play-Turn started e = absurd (ground arith)
  play-Turn closing e = absurd (ground arith)

  play-NoTurn :
      (s : PlayerState)
      → not (state_is s paused) && not (state_is s stopped) ≡ true
      → NoTurn to_play s
  play-NoTurn s e t paused_plays = absurd (ground arith)
  play-NoTurn s e t stopped_plays = absurd (ground arith)

  pause-Turn : (s : PlayerState) → not (state_is s started) ≡ false → Turn to_pause s paused
  pause-Turn started e = started_pauses
  pause-Turn paused e = absurd (ground arith)
  pause-Turn stopped e = absurd (ground arith)
  pause-Turn closed e = absurd (ground arith)
  pause-Turn ready e = absurd (ground arith)
  pause-Turn open_pending e = absurd (ground arith)
  pause-Turn closing e = absurd (ground arith)

  pause-NoTurn : (s : PlayerState) → not (state_is s started) ≡ true → NoTurn to_pause s
  pause-NoTurn s e t started_pauses = absurd (ground arith)

  stop-Turn :
      (s : PlayerState)
      → not (state_is s started) && not (state_is s paused) ≡ false
      → Turn to_stop s stopped
  stop-Turn started e = started_stops
  stop-Turn paused e = paused_stops
  stop-Turn stopped e = absurd (ground arith)
  stop-Turn closed e = absurd (ground arith)
  stop-Turn ready e = absurd (ground arith)
  stop-Turn open_pending e = absurd (ground arith)
  stop-Turn closing e = absurd (ground arith)

  stop-NoTurn :
      (s : PlayerState)
      → not (state_is s started) && not (state_is s paused) ≡ true
      → NoTurn to_stop s
  stop-NoTurn s e t started_stops = absurd (ground arith)
  stop-NoTurn s e t paused_stops = absurd (ground arith)

  -- Play moves from paused or stopped to started, Pause from started to paused, and Stop from started
  -- or paused to stopped, if the session and, but for Stop, the source are there and the session
  -- agrees; nothing else of the player changes. When one of these fails, the player stays as it is.
  pub command-turn :
      (a : Action) (w : World) (x : Player) → is_command a ≡ true → Turns a w x (act m a w x).1
  unfolding act play pause stop start_playback
  command-turn to_play w x e =
      guarded-Turns to_play started w (made (use_effect start_session_call x.session) w) x
        (not (state_is x.state paused) && not (state_is x.state stopped))
        (is_null x.session || is_null x.source) (failed (m.answer w.calls)) mf_e_invalidrequest
        e_unexpected (m.answer w.calls) (play-Turn x.state) (play-NoTurn x.state) refl refl
  command-turn to_pause w x e =
      guarded-Turns to_pause paused w (made (use_effect pause_session x.session) w) x
        (not (state_is x.state started)) (is_null x.session || is_null x.source)
        (failed (m.answer w.calls)) mf_e_invalidrequest e_unexpected (m.answer w.calls)
        (pause-Turn x.state) (pause-NoTurn x.state) refl refl
  command-turn to_stop w x e =
      guarded-Turns to_stop stopped w (made (use_effect stop_session_call x.session) w) x
        (not (state_is x.state started) && not (state_is x.state paused)) (is_null x.session)
        (failed (m.answer w.calls)) mf_e_invalidrequest e_unexpected (m.answer w.calls)
        (stop-Turn x.state) (stop-NoTurn x.state) refl refl
  command-turn to_repaint w x e = absurd (ground arith)
  command-turn to_resize w x e = absurd (ground arith)
  command-turn next_item w x e = absurd (ground arith)
  command-turn new_session w x e = absurd (ground arith)
  command-turn shut w x e = absurd (ground arith)
  command-turn on_callback w x e = absurd (ground arith)
  command-turn (on_message n) w x e = absurd (ground arith)
  command-turn (listed items) w x e = absurd (ground arith)
  command-turn (shown answers) w x e = absurd (ground arith)
