-- ===== src/Player/Callback.antt =====
-- player.cpp: the callback of the session, Invoke, which runs on a thread of the platform.
use ad_manager.Base.{ℕ, zero, suc, Bool, true, false, Option, none, some, if◌then◌else◌}
use ad_manager.Player.Com.{
  EventType, session_topology_status, end_of_presentation, new_presentation, session_ended,
  session_closed, other_event, signalled, posted, World, Platform, Steps, ◌>>◌, ask_on, make_on,
  s_ok, add_effect, ask, safe_release, end_get_event, begin_get_event, add_ref, get_type,
}
use ad_manager.Player.State.{Player, state_is, closing}

abbrev pub is_session_closed : EventType → Bool
is_session_closed session_closed = true
is_session_closed session_topology_status = false
is_session_closed end_of_presentation = false
is_session_closed new_presentation = false
is_session_closed session_ended = false
is_session_closed other_event = false

pub record Invoking : Type 0 where
  pub player : Player
  pub event : Option ℕ

module _ (p : Platform) where
  abbrev pub after_type : Bool → Steps Invoking
  after_type true w f = ((add_effect signalled w, f), s_ok)
  after_type false w f = ask_on p begin_get_event (λ f. f.player.session) w f

  abbrev pub post : World → Option ℕ → World
  post w none = w
  post w (some n) = add_effect (posted n) w

  -- The message carries a reference to the event.
  abbrev pub post_event : Steps Invoking
  post_event w f =
      ((if state_is f.player.state closing then w else post (add_ref f.event w) f.event, f), s_ok)

  abbrev pub invoke_rest : Steps Invoking
  invoke_rest w f =
      (ask p get_type >> after_type (is_session_closed (p.event_type w.calls)) >> post_event) w f

  abbrev pub end_invoke : (World × Invoking) × ℕ → World × ℕ
  end_invoke ((w, f), hr) = (safe_release f.event w, s_ok)

  unfoldable pub invoke : World → Player → World × ℕ
  invoke w x = end_invoke (
      (make_on p end_get_event (λ f. f.player.session) (λ n f. record f { event = some n })
          >> invoke_rest)
        w (record { player = x; event = none }))

  -- A number of callbacks, one after the other.
  unfoldable pub callbacks : ℕ → World → Player → World
  unfolding invoke
  callbacks zero w x = w
  callbacks (suc n) w x = callbacks n (invoke w x).0 x
