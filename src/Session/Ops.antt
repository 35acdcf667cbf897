-- ===== src/Session/Ops.antt =====
-- TcpSession.cpp: the operations of a session. The event loop that runs them has one thread.
use ad_manager.Base.{
  ℕ, ◌+◌, ◌%◌, ◌^◌, ◌⊎◌, inl, inr, Bool, true, false, Option, none, some, List, [], ◌∷◌, ◌++◌, ◌==◌,
  if◌then◌else◌, length, is_empty, take, drop, pos, negsuc, to_u64, to_i64,
}
use ad_manager.Wire.{Bytes, text, head_bytes, head_value}
use ad_manager.Message.Types.{Message, empty, Codec}
use ad_manager.Session.Types.{
  RequestCtx, Hook, Session, ErrorCode, Effect, Event, read_exactly, write, set_value,
  handle_request, run_hook, shutdown_socket, close_socket, started, stopped, posted_request,
  posted_reply, posted_buffer, head_read, body_read, written, read_failed, write_failed,
}

abbrev pub Outcome : Type 0
Outcome = Session × List Effect

-- The buffers that one async_write gathers.
abbrev pub gather : Bytes × Option Bytes → Bytes
gather (head, none) = head
gather (head, some data') = head ++ data'

abbrev pub read_head : List Effect
read_head = read_exactly 4 ∷ []

abbrev pub read_body : ℕ → List Effect
read_body body_len = read_exactly body_len ∷ []

-- keepAlive and the address that the logger shows are left out.
unfoldable pub start_session : Session → Outcome
start_session s = (record s { is_connected = true; socket_open = true }, read_head)

unfoldable pub stop_session : Session → Outcome
stop_session s =
    (record s { is_connected = false; socket_open = false }, shutdown_socket ∷ close_socket ∷ [])

-- The scan goes on past a request.
abbrev pub past : RequestCtx → Option (ℕ × List RequestCtx) → Option (ℕ × List RequestCtx)
past r none = none
past r (some (p, rest)) = some (p, r ∷ rest)

-- The promise of the first request with the response's number, and the list without that request.
unfoldable pub find_req_promise : ℕ → List RequestCtx → Option (ℕ × List RequestCtx)
find_req_promise i [] = none
find_req_promise i (r ∷ rs) =
    if r.msg_id == i then some (r.prom, rs) else past r (find_req_promise i rs)

abbrev pub front : List (Bytes × Option Bytes) → List Effect
front [] = []
front (b ∷ bs) = write (gather b) ∷ []

-- It is called with a queue that is not empty.
unfoldable pub write_data : Session → List Effect
write_data s = front s.msg_queue

-- The end of each posted closure: enqueue, and start writing unless a write is in progress.
unfoldable pub enqueue : Bytes × Option Bytes → Session → Outcome
unfolding write_data
enqueue b s =
    let t = record s { msg_queue = s.msg_queue ++ (b ∷ []) } in
    if is_empty s.msg_queue then (t, write_data t) else (t, [])

-- The message that answers each outstanding request when the connection fails.
abbrev pub error_response : ErrorCode → Message
error_response ec = record empty { return_code = negsuc 0; return_msg = ec.message }

abbrev pub fail_all : Message → List RequestCtx → List Effect
fail_all msg [] = []
fail_all msg (r ∷ rs) = set_value r.prom msg ∷ fail_all msg rs

abbrev pub call_hook : Option Hook → List Effect
call_hook none = []
call_hook (some h) = run_hook h ∷ []

unfoldable pub handle_net_error : ErrorCode → Session → Outcome
handle_net_error ec s = (
  record s { socket_open = false; is_connected = false; requests = [] },
  close_socket ∷ (fail_all (error_response ec) s.requests ++ call_hook s.after_net_error),
)

-- The completion handler of async_write.
unfoldable pub on_written : Session → Outcome
unfolding write_data
on_written s = let t = record s { msg_queue = drop 1 s.msg_queue } in (t, write_data t)

-- `request` makes a promise and posts the closure that sends; if the future cannot be had it
-- answers at once with code -3, and nothing is posted.
abbrev pub future_error : Message
future_error = record empty { return_code = negsuc 2; return_msg = text "get_future exception" }

unfoldable pub request : Bool → ℕ → Message → ℕ → Event ⊎ Message
request future_fails prom msg now =
    if future_fails then inr future_error else inl (posted_request prom msg now)

-- The completion handler of readHead: the bytes are at the end of the buffer, the length is read
-- from its start. A length that is not valid is logged, and read all the same.
unfoldable pub on_head : Bytes → Session → Outcome
on_head b s =
    let buf = s.recv_buf ++ b in (record s { recv_buf = drop 4 buf }, read_body (head_value buf))

abbrev pub as_request : Message → Bool → List Effect
as_request msg true = handle_request (record msg { return_code = pos 0 }) ∷ []
as_request msg false = []

-- A response goes to the promise of its request, any other message to the request handler.
abbrev pub dispatch_to : Message → Option (ℕ × List RequestCtx) → Session → Outcome
dispatch_to msg none s = (s, as_request msg s.request_handler)
dispatch_to msg (some (p, rest)) s = (record s { requests = rest }, set_value p msg ∷ [])

unfoldable pub dispatch : Option Message → Session → Outcome
dispatch none s = (s, [])
dispatch (some msg) s = dispatch_to msg (find_req_promise (to_u64 msg.id) s.requests) s

module _ (codec : Codec) where
  open codec use {serialize, parse}

  -- The four bytes of the length, then the message.
  abbrev pub frame : Message → Bytes
  frame msg = let body = serialize msg in head_bytes (length body) ++ body

  -- The closure that `request` posts.
  unfoldable pub send_request : ℕ → Message → ℕ → Session → Outcome
  unfolding enqueue
  send_request prom msg now s =
      let ctx : RequestCtx = record {
        msg_id = s.msg_id;
        method = msg.method;
        req_time = now;
        prom = prom;
      } in
      let t = record s { requests = s.requests ++ (ctx ∷ []); msg_id = (s.msg_id + 1) % 2 ^ 32 } in
      enqueue (frame (record msg { id = pos s.msg_id }), none) t

  -- The closures that the two forms of `queueRspMsg` post.
  unfoldable pub queue_rsp_msg : Message → Session → Outcome
  unfolding enqueue
  queue_rsp_msg msg s = enqueue (frame msg, none) s

  abbrev pub buffer_head : ℕ → Bytes → Bytes
  buffer_head msg_id data' =
      let prefix = serialize (record empty { id = to_i64 msg_id }) in
      head_bytes (length prefix + length data') ++ prefix

  unfoldable pub queue_rsp_buffer : ℕ → Bytes → Session → Outcome
  unfolding enqueue
  queue_rsp_buffer msg_id data' s = enqueue (buffer_head msg_id data', some data') s

  -- The completion handler of readBody.
  unfoldable pub on_body : Bytes → Session → Outcome
  on_body b s =
      let buf = s.recv_buf ++ b in
      let n = length b in
      let (t, es) = dispatch (parse (take n buf)) s in
      (record t { recv_buf = drop n buf }, es ++ read_head)

  -- What the event loop does with each event. `async_read` has put what came before a failure into
  -- the buffer.
  unfoldable pub step : Session → Event → Outcome
  unfolding start_session stop_session send_request queue_rsp_msg queue_rsp_buffer on_head on_body
      on_written handle_net_error
  step s started = start_session s
  step s stopped = stop_session s
  step s (posted_request prom msg now) = send_request prom msg now s
  step s (posted_reply msg) = queue_rsp_msg msg s
  step s (posted_buffer msg_id data') = queue_rsp_buffer msg_id data' s
  step s (head_read b) = on_head b s
  step s (body_read b) = on_body b s
  step s written = on_written s
  step s (read_failed b ec) = handle_net_error ec (record s { recv_buf = s.recv_buf ++ b })
  step s (write_failed ec) = handle_net_error ec s

  unfoldable pub run : Session → List Event → Outcome
  run s [] = (s, [])
  run s (e ∷ es) = let (t, out) = step s e in let (u, rest) = run t es in (u, out ++ rest)
