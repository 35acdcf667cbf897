-- ===== src/Server.antt =====
-- TcpServer.h and TcpServer.cpp: the sessions of a server. A session is known by a number, the
-- identity of its object; the pool is std::set<std::shared_ptr<TcpSession>>.
pub mod Pool
use ad_manager.Base.{
  ℕ, suc, Bool, true, false, Option, none, some, List, [], ◌∷◌, ◌++◌, ◌==◌, if◌then◌else◌, find,
}
use ad_manager.Message.Types.{Codec}
use ad_manager.Session.Types.{Hook, Session, Effect, Event, leave_pool, new_session}
use ad_manager.Session.Ops.{start_session, stop_session, step}
use ad_manager.Session.Hooks.{hooks}

-- `accepting` is the session that waits for a connection, if an accept is under way.
pub record Server : Type 0 where
  pub acceptor_open : Bool
  pub accepting : Option (ℕ × Session)
  pub next_session : ℕ
  pub session_pool : List (ℕ × Session)

-- Who asked for an effect.
abbrev pub Effects : Type 0
Effects = List (ℕ × Effect)

abbrev pub of_session : ℕ → List Effect → Effects
of_session i [] = []
of_session i (e ∷ es) = (i, e) ∷ of_session i es

unfoldable pub new_server : Server
new_server = record { acceptor_open = true; accepting = none; next_session = 0; session_pool = [] }

-- A new session waits for a connection.
unfoldable pub do_accept : Server → Server
unfolding new_session
do_accept v = record v {
  accepting = some (v.next_session, new_session);
  next_session = suc v.next_session;
}

unfoldable pub start : Server → Server
unfolding do_accept
start v = do_accept v

-- startSession: the hook that leaves the pool, then the pool, then the session itself.
unfoldable pub start_pooled : ℕ → Session → Server → Server × Effects
unfolding start_session
start_pooled i s v =
    let (t, out) = start_session (record s { after_net_error = some leave_pool }) in
    (record v { session_pool = (i, t) ∷ v.session_pool }, of_session i out)

-- The completion handler of async_accept; `accepted` tells that there was no error.
unfoldable pub on_accept : Bool → Server → Server × Effects
unfolding start_pooled do_accept
on_accept accepted v = elim v.accepting [
  | none ↦ (v, [])
  | some (i, s) ↦
      let (w, out) = start_pooled i (record s { request_handler = true }) v in
      if accepted then (do_accept w, out) else (do_accept v, [])
]

-- The pool without a session; it keeps the others.
abbrev pub erase : ℕ → List (ℕ × Session) → List (ℕ × Session)
erase i [] = []
erase i ((j, s) ∷ p) = if j == i then erase i p else (j, s) ∷ erase i p

abbrev pub update : ℕ → Session → List (ℕ × Session) → List (ℕ × Session)
update i t [] = []
update i t ((j, s) ∷ p) = if j == i then (j, t) ∷ update i t p else (j, s) ∷ update i t p

-- The hook of a pooled session clears its hook and its request handler, and takes it from the pool.
-- The hook assigns to the function object that it runs from, and then uses what that has captured;
-- what is lost with the old value of the object is not modelled.
unfoldable pub run_hooks : ℕ → List Hook → Server → Server
run_hooks i [] v = v
run_hooks i (h ∷ hs) v = record v { session_pool = erase i v.session_pool }

module _ (codec : Codec) where
  -- An event of a session in the pool, with the hook that it may run.
  unfoldable pub on_event : ℕ → Event → Server → Server × Effects
  unfolding run_hooks
  on_event i e v = elim (find i v.session_pool) [
    | none ↦ (v, [])
    | some s ↦
        let (t, out) = step codec s e in
        (
          run_hooks i (hooks out) (record v { session_pool = update i t v.session_pool }),
          of_session i out,
        )
  ]

unfoldable pub stop_all : List (ℕ × Session) → Effects
unfolding stop_session
stop_all [] = []
stop_all ((i, s) ∷ p) = of_session i (stop_session s).1 ++ stop_all p

-- The acceptor closes, each session of the pool is stopped, and the pool is cleared.
unfoldable pub stop : Server → Server × Effects
unfolding stop_all
stop v = (record v { acceptor_open = false; session_pool = [] }, stop_all v.session_pool)

-- What the event loop does for the server: an accept ends, or something happens to a session.
pub data Happening : Type 0 where
  accept_ends : Bool → Happening
  happens : ℕ → Event → Happening

module _ (codec : Codec) where
  unfoldable pub server_step : Server → Happening → Server × Effects
  unfolding on_accept on_event
  server_step v (accept_ends b) = on_accept b v
  server_step v (happens i e) = on_event codec i e v

  unfoldable pub server_run : Server → List Happening → Server × Effects
  server_run v [] = (v, [])
  server_run v (h ∷ hs) =
      let (w, out) = server_step v h in let (u, rest) = server_run w hs in (u, out ++ rest)
