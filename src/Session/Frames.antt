-- ===== src/Session/Frames.antt =====
-- A frame that one end writes is the message that the other end reads (TcpSession.cpp: readHead,
-- readBody against request and queueRspMsg), and what a failed read leaves behind.
use ad_manager.Session.Numbers.{
  on_body_idle, IsNumbered, Window, Window-last, find_req_promise-Window,
}
use ad_manager.Base.{
  ℕ, ◌+◌, ◌^◌, ◌≤◌, ◌<◌, ◌≡◌, refl, ◌∙◌, subst, true, some, List, [], ◌∷◌, ◌++◌, append-nil,
  append_assoc, arith, length, length-append, take, drop, pos, to_i64, to_u64-to_i64,
}
use ad_manager.Wire.{Bytes, head_bytes, head_value, head_value-head_bytes}
use ad_manager.Message.Types.{Message, Codec, empty, IsInt64}
use ad_manager.Session.Types.{
  RequestCtx, Session, ErrorCode, Effect, Event, started, head_read, body_read, read_failed,
  handle_request, set_value, read_exactly,
}
use ad_manager.Session.Ops.{
  step, run, frame, buffer_head, on_head, dispatch, read_head, find_req_promise, handle_net_error,
  start_session,
}

-- The head of a frame is four bytes.
head_bytes-length : (n : ℕ) → length (head_bytes n) ≡ 4
unfolding head_bytes
head_bytes-length n = refl

head_then_rest : (n : ℕ) (rest : Bytes) → drop 4 (head_bytes n ++ rest) ≡ rest
unfolding head_bytes
head_then_rest n rest = refl

to_i64-IsInt64 : (i : ℕ) → i < 2 ^ 63 → IsInt64 (to_i64 i)
unfolding to_i64
to_i64-IsInt64 i h = ground arith

-- The reads that bring in a frame: its four-byte head, then the rest.
abbrev pub receive : Bytes → List Event
receive f = head_read (take 4 f) ∷ body_read (drop 4 f) ∷ []

head_value-append : (a b : Bytes) → 4 ≤ length a → head_value (a ++ b) ≡ head_value a
unfolding head_value
head_value-append [] b h = absurd (omega arith)
head_value-append (w ∷ []) b h = absurd (omega arith)
head_value-append (w ∷ x ∷ []) b h = absurd (omega arith)
head_value-append (w ∷ x ∷ y ∷ []) b h = absurd (omega arith)
head_value-append (w ∷ x ∷ y ∷ z ∷ r) b h = refl

take-head_bytes : (n : ℕ) (b : Bytes) → take 4 (head_bytes n ++ b) ≡ head_bytes n
unfolding head_bytes
take-head_bytes n b = refl

drop-head_bytes : (n : ℕ) (b : Bytes) → drop 4 (head_bytes n ++ b) ≡ b
unfolding head_bytes
drop-head_bytes n b = refl

-- Reading the head asks for a body of the length that was written, and leaves the buffer empty.
on_head-head_bytes :
    (s : Session) (n : ℕ)
    → n < 2 ^ 32
    → s.recv_buf ≡ []
    → on_head (head_bytes n) s ≡ (record s { recv_buf = [] }, read_exactly n ∷ [])
unfolding on_head
on_head-head_bytes s n h idle =
    let nothing_left : drop 4 (head_bytes n) ≡ [] = unfold head_bytes in refl in
    rw idle (rw (nothing_left, head_value-head_bytes n h) refl)

module _ (codec : Codec) where
  run_two :
      (s t u : Session) (e f : Event) (out more : List Effect)
      → step codec s e ≡ (t, out)
      → step codec t f ≡ (u, more)
      → run codec s (e ∷ f ∷ []) ≡ (u, out ++ more)
  unfolding run
  run_two s t u e f out more p q = rw p (rw q (rw (append-nil more) refl))

  -- A frame is read as the message that its body parses to, and then the next head is read.
  read_frame :
      (s : Session) (body : Bytes) (m : Message)
      → length body < 2 ^ 32
      → s.recv_buf ≡ []
      → codec.parse body ≡ some m
      → let o = dispatch (some m) (record s { recv_buf = [] }) in
        run codec s (receive (head_bytes (length body) ++ body))
        ≡ (record o.0 { recv_buf = [] }, read_exactly (length body) ∷ (o.1 ++ read_head))
  read_frame s body m h idle parsed =
      rw (take-head_bytes (length body) body, drop-head_bytes (length body) body)
        (run_two s (record s { recv_buf = [] }) _ _ _ (read_exactly (length body) ∷ []) _
          (unfold step in on_head-head_bytes s (length body) h idle)
          (unfold step in (on_body_idle codec body (record s { recv_buf = [] }) refl ∙ rw parsed)))

  -- A message that is framed, in fewer than 2^32 bytes, reaches the request handler of a session
  -- that has one, with an empty buffer and no request of its own outstanding: it comes as it was,
  -- but for the return code, which is 0.
  pub request_arrives :
      (s : Session) (m : Message)
      → codec.Accepts m
      → length (codec.serialize m) < 2 ^ 32
      → s.recv_buf ≡ []
      → s.requests ≡ []
      → s.request_handler ≡ true
      → run codec s (receive (frame codec m)) ≡ (
        s,
        read_exactly (length (codec.serialize m))
            ∷ handle_request (record m { return_code = pos 0 })
            ∷ read_head,
      )
  unfolding dispatch find_req_promise
  request_arrives s m ok h idle empty_list handler =
      read_frame s (codec.serialize m) m h idle (codec.parse-serialize m ok) ∙ ground arith

  -- The body that `queueRspMsg(msgID, data)` sends: a message that has only a number, and the data.
  abbrev pub numbered_body : ℕ → Message → Bytes
  numbered_body i m = codec.serialize (record empty { id = to_i64 i }) ++ codec.serialize m

  buffer_frame :
      (i : ℕ) (m : Message)
      → buffer_head codec i (codec.serialize m) ++ codec.serialize m
        ≡ head_bytes (length (numbered_body i m)) ++ numbered_body i m
  buffer_frame i m =
      let prefix = codec.serialize (record empty { id = to_i64 i }) in
      rw (length-append prefix (codec.serialize m)) (
        append_assoc (head_bytes (length prefix + length (codec.serialize m))) prefix
          (codec.serialize m))

  -- When the outstanding requests are numbered, the buffer is empty and the stored message has the
  -- number 0, the buffer that the server sends under the number of one of them, in fewer than 2^32
  -- bytes, reaches the promise of that request as the stored message with that number; the other
  -- requests stay outstanding.
  pub buffer_arrives :
      (s : Session) (lim : ℕ) (xs ys : List RequestCtx) (r : RequestCtx) (m : Message)
      → IsNumbered lim s
      → s.requests ≡ xs ++ (r ∷ ys)
      → s.recv_buf ≡ []
      → codec.Accepts m
      → m.id ≡ pos 0
      → length (numbered_body r.msg_id m) < 2 ^ 32
      → run codec s (receive (buffer_head codec r.msg_id (codec.serialize m) ++ codec.serialize m))
        ≡ (
          record s { requests = xs ++ ys; recv_buf = [] },
          read_exactly (length (numbered_body r.msg_id m))
              ∷ set_value r.prom (record m { id = to_i64 r.msg_id })
              ∷ read_head,
        )
  unfolding dispatch
  buffer_arrives s lim xs ys r m v at idle ok zero_id h =
      let w = subst (Window s.msg_id lim) at v.recent in
      let word = (Window-last s.msg_id lim xs ys r w).1 in
      rw (buffer_frame r.msg_id m) (
        read_frame s (numbered_body r.msg_id m) (record m { id = to_i64 r.msg_id }) h idle
          (codec.parse-append (to_i64 r.msg_id) m (to_i64-IsInt64 r.msg_id (omega arith)) ok
            zero_id)
        ∙ rw
            (
              to_u64-to_i64 r.msg_id (omega arith),
              at,
              find_req_promise-Window s.msg_id lim xs ys r w,
            )
            refl)

  -- Bytes left in the buffer by a failed read stay there when the session starts again: with four
  -- of them or more, the length that is asked for next does not depend on what the peer sends.
  pub stale_length :
      (s : Session) (b h h' : Bytes) (ec : ErrorCode)
      → 4 ≤ length (s.recv_buf ++ b)
      → let t = (run codec s (read_failed b ec ∷ started ∷ [])).0 in
        (step codec t (head_read h)).1 ≡ (step codec t (head_read h')).1
  unfolding run step handle_net_error start_session on_head
  stale_length s b h h' ec long = rw (head_value-append _ h long, head_value-append _ h' long) refl
