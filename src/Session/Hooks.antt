-- ===== src/Session/Hooks.antt =====
-- When `_afterNetError` runs (TcpSession.cpp: handleNetError).
use ad_manager.Base.{
  ◌≡◌, refl, ap, ◌∙◌, Bool, true, false, Option, none, some, List, [], ◌∷◌, ◌++◌, arith,
  if◌then◌else◌, length, take, drop,
}
use ad_manager.Wire.{Bytes}
use ad_manager.Message.Types.{Message, Codec}
use ad_manager.Session.Types.{
  RequestCtx, Hook, Session, ErrorCode, Effect, Event, read_exactly, write, set_value,
  handle_request, run_hook, shutdown_socket, close_socket, started, stopped, posted_request,
  posted_reply, posted_buffer, head_read, body_read, written, read_failed, write_failed,
}
use ad_manager.Session.Ops.{
  front, fail_all, call_hook, step, run, enqueue, read_head, handle_net_error, start_session,
  stop_session, send_request, queue_rsp_msg, queue_rsp_buffer, on_head, on_body, on_written,
  write_data, dispatch, error_response,
}

-- The hooks that the effects run.
abbrev pub hooks : List Effect → List Hook
hooks [] = []
hooks (run_hook h ∷ es) = h ∷ hooks es
hooks (write b ∷ es) = hooks es
hooks (read_exactly n ∷ es) = hooks es
hooks (set_value p m ∷ es) = hooks es
hooks (handle_request m ∷ es) = hooks es
hooks (shutdown_socket ∷ es) = hooks es
hooks (close_socket ∷ es) = hooks es

-- The events that tell of a failed connection.
abbrev pub is_failure : Event → Bool
is_failure (read_failed b ec) = true
is_failure (write_failed ec) = true
is_failure (posted_request p m t) = false
is_failure (posted_reply m) = false
is_failure (posted_buffer i b) = false
is_failure (head_read b) = false
is_failure (body_read b) = false
is_failure started = false
is_failure stopped = false
is_failure written = false

abbrev pub as_list : Option Hook → List Hook
as_list none = []
as_list (some h) = h ∷ []

pub hooks-append : (es fs : List Effect) → hooks (es ++ fs) ≡ hooks es ++ hooks fs
hooks-append [] fs = refl
hooks-append (run_hook h ∷ es) fs = rw (hooks-append es fs)
hooks-append (write b ∷ es) fs = hooks-append es fs
hooks-append (read_exactly n ∷ es) fs = hooks-append es fs
hooks-append (set_value p m ∷ es) fs = hooks-append es fs
hooks-append (handle_request m ∷ es) fs = hooks-append es fs
hooks-append (shutdown_socket ∷ es) fs = hooks-append es fs
hooks-append (close_socket ∷ es) fs = hooks-append es fs

hooks-fail_all : (m : Message) (rs : List RequestCtx) → hooks (fail_all m rs) ≡ []
hooks-fail_all m [] = refl
hooks-fail_all m (r ∷ rs) = hooks-fail_all m rs

hooks-call_hook : (h : Option Hook) → hooks (call_hook h) ≡ as_list h
hooks-call_hook none = refl
hooks-call_hook (some h) = refl

hooks-failed :
    (ec : ErrorCode) (s : Session)
    → hooks (fail_all (error_response ec) s.requests ++ call_hook s.after_net_error)
      ≡ as_list s.after_net_error
hooks-failed ec s =
    rw
      (
        hooks-append (fail_all (error_response ec) s.requests) (call_hook s.after_net_error),
        hooks-fail_all (error_response ec) s.requests,
        hooks-call_hook s.after_net_error,
      )
      refl

hooks-front : (q : List (Bytes × Option Bytes)) → hooks (front q) ≡ []
hooks-front [] = refl
hooks-front (b ∷ q) = refl

hooks-enqueue : (b : Bytes × Option Bytes) (s : Session) → hooks (enqueue b s).1 ≡ []
unfolding enqueue
hooks-enqueue b s = ground (arith, hooks-front (s.msg_queue ++ (b ∷ [])))

hook-enqueue :
    (b : Bytes × Option Bytes) (s : Session) → (enqueue b s).0.after_net_error ≡ s.after_net_error
unfolding enqueue
hook-enqueue b s = ground arith

dispatch-hooks :
    (m : Option Message) (s : Session)
    → (hooks (dispatch m s).1 ≡ []) × ((dispatch m s).0.after_net_error ≡ s.after_net_error)
unfolding dispatch
dispatch-hooks none s = (refl, refl)
dispatch-hooks (some m) s = ground arith

module _ (codec : Codec) where
  -- An event runs the hook of the session, if it has one, exactly if it tells of a failure, and
  -- then once; no event changes which hook it is.
  pub step-hooks :
      (s : Session) (e : Event)
      → (hooks (step codec s e).1 ≡ (if is_failure e then as_list s.after_net_error else []))
        × ((step codec s e).0.after_net_error ≡ s.after_net_error)
  unfolding step on_body
  step-hooks s (posted_request p m t) = unfold send_request in (hooks-enqueue _ _, hook-enqueue _ _)
  step-hooks s (posted_reply m) = unfold queue_rsp_msg in (hooks-enqueue _ s, hook-enqueue _ s)
  step-hooks s (posted_buffer i b) =
      unfold queue_rsp_buffer in (hooks-enqueue _ s, hook-enqueue _ s)
  step-hooks s (head_read b) = unfold on_head in (refl, refl)
  step-hooks s (body_read b) =
      let m = codec.parse (take (length b) (s.recv_buf ++ b)) in
      let d = dispatch-hooks m s in (rw (hooks-append (dispatch m s).1 read_head, d.0) refl, d.1)
  step-hooks s written = unfold on_written write_data in (hooks-front (drop 1 s.msg_queue), refl)
  step-hooks s (read_failed b ec) = unfold handle_net_error in (hooks-failed ec s, refl)
  step-hooks s (write_failed ec) = unfold handle_net_error in (hooks-failed ec s, refl)
  step-hooks s started = unfold start_session in (refl, refl)
  step-hooks s stopped = unfold stop_session in (refl, refl)

  -- Without a hook, no event of any history runs one.
  pub hooks-run_quiet :
      (s : Session) (es : List Event) → s.after_net_error ≡ none → hooks (run codec s es).1 ≡ []
  unfolding run
  hooks-run_quiet s [] h = refl
  hooks-run_quiet s (e ∷ es) h =
      let (t, out) = step codec s e in
      let (now, kept) = step-hooks s e in
      let quiet : hooks out ≡ [] = ground arith in
      hooks-append out (run codec t es).1
      ∙ ap (λ l. l ++ hooks (run codec t es).1) quiet
      ∙ hooks-run_quiet t es (kept ∙ h)
