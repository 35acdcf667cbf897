-- ===== src/Player/Sessions.antt =====
-- In which histories of a player no call goes through a null pointer (player.cpp).
use ad_manager.Base.{
  ℕ, ◌≡◌, refl, Bool, true, false, not, ◌&&◌, Option, none, some, List, [], ◌∷◌, arith, take,
}
use ad_manager.Player.Com.{
  World, Platform, add_effect, received, made, called, slept, create_event, startup,
}
use ad_manager.Player.Events.{create_session}
use ad_manager.Player.State.{Player, is_null}
use ad_manager.Player.Playback.{repaint, resize_video}
use ad_manager.Player.Lifetime.{poll, set_video_window}
use ad_manager.Player.Posted.{invoke-IsQuiet}
use ad_manager.Player.Guards.{IsQuiet}
use ad_manager.Player.Faults.{
  play-IsQuiet, pause-IsQuiet, stop-IsQuiet, shutdown-IsQuiet, create_session-IsQuiet,
  play_next-Stays,
}
use ad_manager.Player.Handlers.{handle_event-Stays}
use ad_manager.Player.Ledger.{
  Action, to_play, to_pause, to_stop, to_repaint, to_resize, next_item, new_session, shut,
  on_callback, on_message, listed, shown, act, act_all,
}

module _ (m : Platform) where
  -- The session that SetVideoWindow makes, if it gets so far.
  abbrev pub window_session : World → Player → Option ℕ
  window_session w x =
      let u = made (called create_event) (made (called startup) w) in
      (create_session m u (record x { close_event = true })).0.1.session

  -- What the code does with the session without a look at the pointer finds one.
  abbrev pub is_guarded : Action → World → Player → Bool
  is_guarded next_item w x = not (is_null x.session)
  is_guarded on_callback w x = not (is_null x.session)
  is_guarded (on_message e) w x = not (is_null x.session)
  is_guarded (shown answers) w x = not (is_null (window_session w x))
  is_guarded to_play w x = true
  is_guarded to_pause w x = true
  is_guarded to_stop w x = true
  is_guarded to_repaint w x = true
  is_guarded to_resize w x = true
  is_guarded new_session w x = true
  is_guarded shut w x = true
  is_guarded (listed items) w x = true

  unfoldable pub all_guarded : List Action → World → Player → Bool
  all_guarded [] w x = true
  all_guarded (a ∷ more) w x =
      let (v, y) = act m a w x in let rest = all_guarded more v y in is_guarded a w x && rest

  there_is : (o : Option ℕ) → not (is_null o) ≡ true → (n : ℕ) × (o ≡ some n)
  there_is none e = absurd (ground arith)
  there_is (some n) e = (n, refl)

  poll-IsQuiet :
      (s : ℕ) (answers : List Bool) (w : World) (x : Player)
      → x.session ≡ some s
      → IsQuiet w (poll m answers w x).0
  unfolding poll
  poll-IsQuiet s [] w x e = refl
  poll-IsQuiet s (true ∷ more) w x e = (play_next-Stays m s w x e).1
  poll-IsQuiet s (false ∷ more) w x e = poll-IsQuiet s more (add_effect slept w) x e

  set_video_window-IsQuiet :
      (answers : List Bool) (w : World) (x : Player)
      → not (is_null (window_session w x)) ≡ true
      → IsQuiet w (set_video_window m answers w x).0
  unfolding set_video_window
  set_video_window-IsQuiet answers w x h =
      let u = made (called create_event) (made (called startup) w) in
      let y : Player = record x { close_event = true } in
      let (t, z) = (create_session m u y).0 in
      let (s, e) = there_is z.session h in
      ground (arith, create_session-IsQuiet m u y, poll-IsQuiet s (take 30 answers) t z e)

  act-IsQuiet :
      (a : Action) (w : World) (x : Player) → is_guarded a w x ≡ true → IsQuiet w (act m a w x).0
  unfolding act repaint resize_video
  act-IsQuiet to_play w x h = play-IsQuiet m w x
  act-IsQuiet to_pause w x h = pause-IsQuiet m w x
  act-IsQuiet to_stop w x h = stop-IsQuiet m w x
  act-IsQuiet to_repaint w x h = ground arith
  act-IsQuiet to_resize w x h = ground arith
  act-IsQuiet new_session w x h = create_session-IsQuiet m w x
  act-IsQuiet shut w x h = shutdown-IsQuiet m w x
  act-IsQuiet (listed items) w x h = refl
  act-IsQuiet (shown answers) w x h = set_video_window-IsQuiet answers w x h
  act-IsQuiet next_item w x h = let (s, e) = there_is x.session h in (play_next-Stays m s w x e).1
  act-IsQuiet on_callback w x h = let (s, e) = there_is x.session h in invoke-IsQuiet m s w x e
  act-IsQuiet (on_message n) w x h =
      let (s, e) = there_is x.session h in
      (handle_event-Stays m s n (add_effect (received n) w) x e).1

  -- No call goes through a null pointer in a history in which each message, each callback and each next
  -- item of the list comes while there is a session, and each window gets the session that is made for
  -- it; the commands, a new session and the shutdown may come at any time.
  pub act_all-IsQuiet :
      (actions : List Action) (w : World) (x : Player)
      → all_guarded actions w x ≡ true
      → IsQuiet w (act_all m actions w x).0
  unfolding act_all all_guarded
  act_all-IsQuiet [] w x e = refl
  act_all-IsQuiet (a ∷ more) w x e =
      let (v, y) = act m a w x in
      omega (arith, act-IsQuiet a w x (ground arith), act_all-IsQuiet more v y (ground arith))
