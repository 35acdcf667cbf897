-- ===== src/Client.antt =====
-- TcpClient.h and TcpClient.cpp: the session of a client, and how it reconnects.
pub mod Backoff
use ad_manager.Base.{ℕ, ◌*◌, Bool, true, false, Option, none, some, List, [], ltb, if◌then◌else◌}
use ad_manager.Wire.{Bytes}
use ad_manager.Session.Types.{Session, Effect, reconnect, new_session}
use ad_manager.Session.Ops.{start_session, stop_session}

pub record Endpoint : Type 0 where
  pub address : Bytes
  pub port : ℕ

-- `reconnect_timer` holds the seconds of a wait that is under way; `connecting` tells of an
-- async_connect under way.
pub record Client : Type 0 where
  pub endpoint : Endpoint
  pub reconnect_timer : Option ℕ
  pub connecting : Bool
  pub reconnect_interval : ℕ
  pub session : Session

-- The constructor.
unfoldable pub new_client : Endpoint → Client
unfolding new_session
new_client unset = record {
  endpoint = unset;
  reconnect_timer = none;
  connecting = false;
  reconnect_interval = 1;
  session = record new_session { after_net_error = some reconnect };
}

abbrev start : Client → Client × List Effect
start c = let (s, out) = start_session c.session in (record c { session = s }, out)

-- `connected` tells whether the blocking connect succeeds.
unfoldable pub sync_connect : Bool → Endpoint → Client → (Client × List Effect) × Bool
unfolding start_session
sync_connect connected endpoint c =
    let d = record c { endpoint = endpoint } in
    if connected then (start d, true) else ((d, []), false)

-- Ten minutes.
abbrev pub limit : ℕ
limit = 10 * 60

-- It is called by the session after a network error, and by the timer.
unfoldable pub async_connect : Endpoint → Client → Client
async_connect endpoint c = record c {
  endpoint = endpoint;
  connecting = true;
  reconnect_timer = none;
  reconnect_interval =
      if ltb c.reconnect_interval limit then c.reconnect_interval * 2 else c.reconnect_interval;
}

-- The completion handler of async_connect.
unfoldable pub on_connect : Bool → Client → Client × List Effect
unfolding start_session
on_connect true c = start (record c { connecting = false; reconnect_interval = 1 })
on_connect false c =
    (record c { connecting = false; reconnect_timer = some c.reconnect_interval }, [])

unfoldable pub set_auto_reconnect : Bool → Client → Client
set_auto_reconnect auto c =
    let s = c.session in
    record c { session = record s { after_net_error = if auto then some reconnect else none } }

unfoldable pub stop : Client → Client × List Effect
unfolding set_auto_reconnect stop_session
stop c =
    let d = set_auto_reconnect false c in
    let (s, out) = stop_session d.session in (record d { session = s }, out)

unfoldable pub is_connected : Client → Bool
is_connected c = c.session.is_connected
