-- ===== src/Player/Posted.antt =====
-- What the callback of the session does to references and through pointers (player.cpp, Invoke and
-- CloseSession).
use ad_manager.Base.{ℕ, zero, suc, ◌≡◌, refl, Option, none, some, arith}
use ad_manager.Player.Com.{World, Platform, made, used, close_session_call}
use ad_manager.Player.References.{Grows}
use ad_manager.Player.State.{Player, closing}
use ad_manager.Player.Callback.{invoke, callbacks}
use ad_manager.Player.Events.{close_call}
use ad_manager.Player.Guards.{IsQuiet}

module _ (m : Platform) where
  module _ (p : ℕ) where
    pub invoke-Grows : (w : World) (x : Player) → Grows p w (invoke m w x).0 0
    unfolding invoke
    invoke-Grows w x = ground arith

    callbacks-Grows : (n : ℕ) (w : World) (x : Player) → Grows p w (callbacks m n w x) 0
    unfolding callbacks
    callbacks-Grows zero w x = omega arith
    callbacks-Grows (suc n) w x =
        omega (arith, invoke-Grows w x, callbacks-Grows n (invoke m w x).0 x)

    pub close_call-Grows :
        (s : Option ℕ) (w : World) (x : Player) → Grows p w (close_call m s w x).0 0
    unfolding close_call
    close_call-Grows none w x = omega arith
    close_call-Grows (some n) w x =
        let v = made (used close_session_call n) w in
        ground (
          arith,
          callbacks-Grows (m.callbacks_in_wait w.calls) v
              (record x { session = some n; state = closing }),
        )

  pub invoke-IsQuiet :
      (s : ℕ) (w : World) (x : Player) → x.session ≡ some s → IsQuiet w (invoke m w x).0
  unfolding invoke
  invoke-IsQuiet s w x e = ground arith

  callbacks-IsQuiet :
      (s n : ℕ) (w : World) (x : Player) → x.session ≡ some s → IsQuiet w (callbacks m n w x)
  unfolding callbacks
  callbacks-IsQuiet s zero w x e = refl
  callbacks-IsQuiet s (suc n) w x e =
      omega (arith, invoke-IsQuiet s w x e, callbacks-IsQuiet s n (invoke m w x).0 x e)

  pub close_call-IsQuiet :
      (s : Option ℕ) (w : World) (x : Player) → IsQuiet w (close_call m s w x).0
  unfolding close_call
  close_call-IsQuiet none w x = refl
  close_call-IsQuiet (some n) w x =
      let v = made (used close_session_call n) w in
      ground (
        arith,
        callbacks-IsQuiet n (m.callbacks_in_wait w.calls) v
            (record x { session = some n; state = closing }) refl,
      )
