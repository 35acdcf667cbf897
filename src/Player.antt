-- ===== src/Player.antt =====
-- player.h and player.cpp: whose turn it is to be played, CPlayer::NotifyPlay.
pub mod Turns
pub mod Com
pub mod Media
pub mod References
pub mod Messages
pub mod State
pub mod Playback
pub mod Callback
pub mod Events
pub mod Posted
pub mod Lifetime
pub mod Owned
pub mod Opened
pub mod Dangling
pub mod Ledger
pub mod Guards
pub mod Faults
pub mod Handlers
pub mod Commands
pub mod Sessions
pub mod Release
use ad_manager.Base.{
  ℕ, zero, suc, Bool, ◌&&◌, Option, none, some, List, [], ◌∷◌, ◌++◌, ◌==◌, if◌then◌else◌, length,
}
use ad_manager.Manager.Types.{PlayItem}
use ad_manager.Manager.Download.{has_key}

-- A video whose file is there.
unfoldable pub is_playable : PlayItem → Bool
is_playable it = it.type == 1 && has_key it.adfile

-- The loop, with the rounds that are left: the list, and the item that is opened, if any.
unfoldable pub next_turn : ℕ → List PlayItem → List PlayItem × Option PlayItem
next_turn zero items = (items, none)
next_turn (suc n) [] = ([], none)
next_turn (suc n) (it ∷ its) =
    let rest = next_turn n (its ++ (it ∷ [])) in
    if is_playable it then (its ++ (it ∷ []), some it) else rest

unfoldable pub notify_play : List PlayItem → List PlayItem × Option PlayItem
unfolding next_turn
notify_play items = next_turn (length items) items

-- The items that are opened by a number of calls, in their order.
abbrev pub opened : Option PlayItem → List PlayItem → List PlayItem
opened none more = more
opened (some it) more = it ∷ more

unfoldable pub turns : ℕ → List PlayItem → List PlayItem
unfolding notify_play
turns zero items = []
turns (suc n) items = let (next, it) = notify_play items in opened it (turns n next)
