-- ===== src/Session/Writes.antt =====
-- What goes out on a connection (TcpSession.cpp: request, queueRspMsg, writeData).
use mathlib.Core.List.{map-append}
use ad_manager.Base.{
  ◌≡◌, refl, sym, ap, ◌∙◌, Option, none, some, List, [], ◌∷◌, ◌++◌, map, append-nil, append_assoc,
  arith, length, take, drop, pos,
}
use ad_manager.Wire.{Bytes}
use ad_manager.Message.Types.{Message, Codec}
use ad_manager.Session.Types.{
  RequestCtx, Hook, Session, ErrorCode, Effect, Event, read_exactly, write, set_value,
  handle_request, run_hook, shutdown_socket, close_socket, started, stopped, posted_request,
  posted_reply, posted_buffer, head_read, body_read, written, read_failed, write_failed,
}
use ad_manager.Session.Ops.{
  gather, fail_all, call_hook, step, run, enqueue, frame, dispatch, read_head, buffer_head, Outcome,
  handle_net_error, on_written, start_session, error_response, write_data, stop_session, on_head,
  on_body, send_request, queue_rsp_msg, queue_rsp_buffer,
}

-- The bytes of the writes that the effects start, in order.
abbrev pub sent : List Effect → List Bytes
sent [] = []
sent (write b ∷ es) = b ∷ sent es
sent (read_exactly n ∷ es) = sent es
sent (set_value p m ∷ es) = sent es
sent (handle_request m ∷ es) = sent es
sent (run_hook h ∷ es) = sent es
sent (shutdown_socket ∷ es) = sent es
sent (close_socket ∷ es) = sent es

-- The frames of the whole queue, of which the first is being written.
abbrev pub queued : Session → List Bytes
queued s = map gather s.msg_queue

pub sent-append : (es fs : List Effect) → sent (es ++ fs) ≡ sent es ++ sent fs
sent-append [] fs = refl
sent-append (write b ∷ es) fs = rw (sent-append es fs)
sent-append (read_exactly n ∷ es) fs = sent-append es fs
sent-append (set_value p m ∷ es) fs = sent-append es fs
sent-append (handle_request m ∷ es) fs = sent-append es fs
sent-append (run_hook h ∷ es) fs = sent-append es fs
sent-append (shutdown_socket ∷ es) fs = sent-append es fs
sent-append (close_socket ∷ es) fs = sent-append es fs

sent-fail_all : (m : Message) (rs : List RequestCtx) → sent (fail_all m rs) ≡ []
sent-fail_all m [] = refl
sent-fail_all m (r ∷ rs) = sent-fail_all m rs

sent-call_hook : (h : Option Hook) → sent (call_hook h) ≡ []
sent-call_hook none = refl
sent-call_hook (some h) = refl

-- Behind the write in progress stands what a step leaves there, behind what it starts to write.
abbrev Ordered : Session → List Bytes → Outcome → Type 0
Ordered s new o = drop 1 (queued s) ++ new ≡ sent o.1 ++ drop 1 (queued o.0)

enqueue-Ordered :
    (b : Bytes × Option Bytes) (q : List (Bytes × Option Bytes)) (s : Session)
    → s.msg_queue ≡ q
    → Ordered s (gather b ∷ []) (enqueue b s)
unfolding enqueue
enqueue-Ordered b [] s e = rw (e, enqueue) refl
enqueue-Ordered b (c ∷ q) s e = rw (e, enqueue) (sym (map-append gather q (b ∷ [])))

pub sent-failed :
    (ec : ErrorCode) (s : Session)
    → sent (fail_all (error_response ec) s.requests ++ call_hook s.after_net_error) ≡ []
sent-failed ec s =
    rw
      (
        sent-append (fail_all (error_response ec) s.requests) (call_hook s.after_net_error),
        sent-fail_all (error_response ec) s.requests,
        sent-call_hook s.after_net_error,
      )
      refl

handle_net_error-Ordered : (ec : ErrorCode) (s : Session) → Ordered s [] (handle_net_error ec s)
unfolding handle_net_error
handle_net_error-Ordered ec s = rw (append-nil (drop 1 (queued s)), sent-failed ec s) refl

on_written-Ordered :
    (q : List (Bytes × Option Bytes)) (s : Session) → s.msg_queue ≡ q → Ordered s [] (on_written s)
unfolding on_written write_data
on_written-Ordered [] s e = rw e refl
on_written-Ordered (a ∷ []) s e = rw e refl
on_written-Ordered (a ∷ b ∷ q) s e = rw e (append-nil (map gather (b ∷ q)))

pub dispatch-queue : (m : Option Message) (s : Session) → (dispatch m s).0.msg_queue ≡ s.msg_queue
unfolding dispatch
dispatch-queue none s = refl
dispatch-queue (some m) s = ground arith

pub dispatch-sent : (m : Option Message) (s : Session) → sent (dispatch m s).1 ≡ []
unfolding dispatch
dispatch-sent none s = refl
dispatch-sent (some m) s = ground arith

module _ (codec : Codec) where
  -- The frame that an event adds to the queue of a session.
  abbrev pub offered : Session → Event → List Bytes
  offered s (posted_request p m t) = frame codec (record m { id = pos s.msg_id }) ∷ []
  offered s (posted_reply m) = frame codec m ∷ []
  offered s (posted_buffer i b) = (buffer_head codec i b ++ b) ∷ []
  offered s started = []
  offered s stopped = []
  offered s (head_read b) = []
  offered s (body_read b) = []
  offered s written = []
  offered s (read_failed b ec) = []
  offered s (write_failed ec) = []

  -- The frames that a history adds to the queue, in order.
  pub all_offered : Session → List Event → List Bytes
  all_offered s [] = []
  all_offered s (e ∷ es) = offered s e ++ all_offered (step codec s e).0 es

  step-Ordered : (s : Session) (e : Event) → Ordered s (offered s e) (step codec s e)
  unfolding step on_body
  step-Ordered s (posted_request p m t) =
      unfold send_request in enqueue-Ordered _ s.msg_queue _ refl
  step-Ordered s (posted_reply m) = unfold queue_rsp_msg in enqueue-Ordered _ s.msg_queue s refl
  step-Ordered s (posted_buffer i b) =
      unfold queue_rsp_buffer in enqueue-Ordered _ s.msg_queue s refl
  step-Ordered s (head_read b) = unfold on_head in append-nil (drop 1 (queued s))
  step-Ordered s (body_read b) =
      let m = codec.parse (take (length b) (s.recv_buf ++ b)) in
      rw (sent-append (dispatch m s).1 read_head, dispatch-sent m s, dispatch-queue m s)
        (append-nil (drop 1 (queued s)))
  step-Ordered s written = on_written-Ordered s.msg_queue s refl
  step-Ordered s (read_failed b ec) =
      handle_net_error-Ordered ec (record s { recv_buf = s.recv_buf ++ b })
  step-Ordered s (write_failed ec) = handle_net_error-Ordered ec s
  step-Ordered s started = unfold start_session in append-nil (drop 1 (queued s))
  step-Ordered s stopped = unfold stop_session in append-nil (drop 1 (queued s))

  -- Over any history, from any state: the frames that wait behind the write in progress, then those
  -- that the history adds, are the frames whose writing the history starts, then those that wait
  -- behind the write in progress at its end, in the same order.
  pub run-sent :
      (s : Session) (es : List Event)
      → drop 1 (queued s) ++ all_offered s es
        ≡ sent (run codec s es).1 ++ drop 1 (queued (run codec s es).0)
  unfolding run all_offered
  run-sent s [] = append-nil (drop 1 (queued s))
  run-sent s (e ∷ es) =
      let (t, out) = step codec s e in
      let (u, rest) = run codec t es in
      sym (append_assoc (drop 1 (queued s)) (offered s e) (all_offered t es))
      ∙ ap (λ l. l ++ all_offered t es) (step-Ordered s e)
      ∙ append_assoc (sent out) (drop 1 (queued t)) (all_offered t es)
      ∙ ap (λ l. sent out ++ l) (run-sent t es)
      ∙ sym (append_assoc (sent out) (sent rest) (drop 1 (queued u)))
      ∙ ap (λ l. l ++ drop 1 (queued u)) (sym (sent-append out rest))
