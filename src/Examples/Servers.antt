-- ===== src/Examples/Servers.antt =====
-- The theorems on servers at concrete inputs.
use ad_manager.Base.{◌≡◌, refl, true, none, List, [], ◌∷◌, find}
use ad_manager.Session.Types.{write_failed, posted_reply}
use ad_manager.Server.{
  Server, Happening, accept_ends, happens, server_run, on_event, new_server, start,
}
use ad_manager.Server.Pool.{
  IsSound, IsServing, server_run-IsSound, failure_leaves_pool, start-IsSound,
}
use ad_manager.Examples.Data.{wire, serving, reset, answer}

-- A client comes, is answered, and is lost.
abbrev visit : List Happening
visit = accept_ends true ∷ happens 0 (posted_reply answer) ∷ happens 0 (write_failed reset) ∷ []

server_run-IsSound_example : IsSound (server_run wire (start new_server) visit).0
server_run-IsSound_example =
    server_run-IsSound wire (start new_server) visit (refl, (refl, (refl, tt))) start-IsSound

abbrev two_clients : Server
two_clients = record {
  acceptor_open = true;
  accepting = none;
  next_session = 2;
  session_pool = (0, serving) ∷ (1, serving) ∷ [];
}

serving-IsServing : IsServing serving
serving-IsServing = record { connected = refl; handles = refl; hooked = refl }

failure_leaves_pool_example :
    find 1 (on_event wire 0 (write_failed reset) two_clients).0.session_pool
    ≡ find 1 two_clients.session_pool
failure_leaves_pool_example =
    failure_leaves_pool wire two_clients 0 1 serving (write_failed reset) (unfold find in refl)
      serving-IsServing refl
