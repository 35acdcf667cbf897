-- ===== src/Session/Types.antt =====
-- TcpSession.h: the fields of a session, what it asks of its environment, and what it is told.
use ad_manager.Base.{ℕ, Bool, false, Option, none, List, [], ℤ}
use ad_manager.Wire.{Bytes}
use ad_manager.Message.Types.{Message}

-- A request whose response has not come. A promise is known by its number; `wireData` is never set.
pub record RequestCtx : Type 0 where
  pub msg_id : ℕ
  pub method : Bytes
  pub req_time : ℕ
  pub prom : ℕ

-- The two functions that are ever stored in `_afterNetError`.
pub data Hook : Type 0 where
  reconnect leave_pool : Hook

pub record Session : Type 0 where
  pub msg_id : ℕ
  pub requests : List RequestCtx
  pub recv_buf : Bytes
  pub msg_queue : List (Bytes × Option Bytes)
  pub socket_open : Bool
  pub is_connected : Bool
  pub after_net_error : Option Hook
  pub request_handler : Bool

pub record ErrorCode : Type 0 where
  pub value : ℤ
  pub message : Bytes

-- The calls that a session makes, in order: async_read, async_write, promise::set_value,
-- _requestHandler, _afterNetError, and the socket's shutdown and close.
pub data Effect : Type 0 where
  read_exactly : ℕ → Effect
  write : Bytes → Effect
  set_value : ℕ → Message → Effect
  handle_request : Message → Effect
  run_hook : Hook → Effect
  shutdown_socket close_socket : Effect

-- What the event loop runs on a session: a closure posted by `request` or `queueRspMsg`, or the
-- completion of a read or a write. A read that fails may have delivered part of its bytes.
pub data Event : Type 0 where
  started stopped : Event
  posted_request : ℕ → Message → ℕ → Event
  posted_reply : Message → Event
  posted_buffer : ℕ → Bytes → Event
  head_read : Bytes → Event
  body_read : Bytes → Event
  written : Event
  read_failed : Bytes → ErrorCode → Event
  write_failed : ErrorCode → Event

-- The constructor: the socket is not open, the first message number is 1.
unfoldable pub new_session : Session
new_session = record {
  msg_id = 1;
  requests = [];
  recv_buf = [];
  msg_queue = [];
  socket_open = false;
  is_connected = false;
  after_net_error = none;
  request_handler = false;
}
