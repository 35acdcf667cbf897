-- ===== src/Player/State.antt =====
-- player.h: the state of the player, CPlayer.
use ad_manager.Base.{ℕ, Bool, true, false, Option, none, some, List, [], ◌==◌}
use ad_manager.Manager.Types.{PlayItem}

-- The states in the order of their numbers.
pub data PlayerState : Type 0 where
  closed ready open_pending started paused stopped closing : PlayerState

abbrev pub state_code : PlayerState → ℕ
state_code closed = 0
state_code ready = 1
state_code open_pending = 2
state_code started = 3
state_code paused = 4
state_code stopped = 5
state_code closing = 6

abbrev pub state_is : PlayerState → PlayerState → Bool
state_is a b = state_code a == state_code b

-- `close_event` tells whether there is a handle for it, `loaded` whether the functions of the platform
-- were found.
pub record Player : Type 0 where
  pub ref_count : ℕ
  pub session : Option ℕ
  pub source : Option ℕ
  pub display : Option ℕ
  pub state : PlayerState
  pub close_event : Bool
  pub loaded : Bool
  pub play_list : List PlayItem

abbrev pub is_null : Option ℕ → Bool
is_null none = true
is_null (some n) = false

-- The constructor.
unfoldable pub new_player : Bool → Player
new_player loaded = record {
  ref_count = 1;
  session = none;
  source = none;
  display = none;
  state = closed;
  close_event = false;
  loaded = loaded;
  play_list = [];
}
