-- ===== src/Player/Release.antt =====
-- The end of a player: what is left of the references that it has acquired (player.cpp, Release and
-- Shutdown).
use ad_manager.Base.{ℕ, ◌+◌, ◌≡◌, refl, none, arith, count}
use ad_manager.Player.Com.{World, Platform}
use ad_manager.Player.References.{gains, losses}
use ad_manager.Player.State.{Player}
use ad_manager.Player.Events.{shutdown}
use ad_manager.Player.Lifetime.{player_release}
use ad_manager.Player.Owned.{fields, shutdown-Kept, close_session-clear}

module _ (m : Platform) (p : ℕ) where
  shutdown-fields : (w : World) (x : Player) → fields m p (shutdown m w x).0.1 ≡ 0
  unfolding shutdown
  shutdown-fields w x = ground (arith, close_session-clear m p w x)

  pub player_release-Balanced :
      (w : World) (x : Player)
      → x.ref_count ≡ 1
      → gains p w.log ≡ losses p w.log + fields m p x
      → let ((v, left), count) = player_release m w x in
        (left ≡ none) × (gains p v.log ≡ losses p v.log)
  unfolding player_release
  player_release-Balanced w x e owned =
      let y : Player = record x { ref_count = 0 } in
      rw e (refl, omega (arith, shutdown-Kept m p w y, shutdown-fields w y))
