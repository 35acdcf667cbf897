-- ===== src/Session/Promises.antt =====
-- Who answers a request: every promise that `request` makes is answered at most once, and until
-- then its request is outstanding (TcpSession.cpp: request, findReqPromise, handleNetError).
use mathlib.Core.List.{map-append}
use ad_manager.Base.{
  ℕ, ◌+◌, ◌≡◌, refl, sym, ap, ◌∙◌, inl, inr, Option, none, some, List, [], ◌∷◌, ◌++◌, map,
  append-nil, append_assoc, arith, Option-cases, length, take, drop, count, count-append, to_u64,
}
use ad_manager.Wire.{Bytes}
use ad_manager.Message.Types.{Message, Codec}
use ad_manager.Session.Types.{
  RequestCtx, Hook, Session, Effect, Event, read_exactly, write, set_value, handle_request,
  run_hook, shutdown_socket, close_socket, started, stopped, posted_request, posted_reply,
  posted_buffer, head_read, body_read, written, read_failed, write_failed, ErrorCode,
}
use ad_manager.Session.Ops.{
  Outcome, find_req_promise, front, enqueue, fail_all, call_hook, handle_net_error, send_request,
  dispatch, error_response, on_body, step, read_head, queue_rsp_msg, run, queue_rsp_buffer, on_head,
  on_written, write_data, frame, buffer_head,
}

-- The promises that the effects answer, in order.
abbrev pub answered : List Effect → List ℕ
answered [] = []
answered (set_value p m ∷ es) = p ∷ answered es
answered (read_exactly n ∷ es) = answered es
answered (write b ∷ es) = answered es
answered (handle_request m ∷ es) = answered es
answered (run_hook h ∷ es) = answered es
answered (shutdown_socket ∷ es) = answered es
answered (close_socket ∷ es) = answered es

-- The promises of the requests that the events post.
abbrev pub asked : List Event → List ℕ
asked [] = []
asked (posted_request p m t ∷ es) = p ∷ asked es
asked (started ∷ es) = asked es
asked (stopped ∷ es) = asked es
asked (posted_reply m ∷ es) = asked es
asked (posted_buffer i b ∷ es) = asked es
asked (head_read b ∷ es) = asked es
asked (body_read b ∷ es) = asked es
asked (written ∷ es) = asked es
asked (read_failed b ec ∷ es) = asked es
asked (write_failed ec ∷ es) = asked es

abbrev pub proms : List RequestCtx → List ℕ
proms = map (λ r. r.prom)

abbrev pub pending : Session → List ℕ
pending s = proms s.requests

answered-append : (es fs : List Effect) → answered (es ++ fs) ≡ answered es ++ answered fs
answered-append [] fs = refl
answered-append (set_value p m ∷ es) fs = rw (answered-append es fs)
answered-append (read_exactly n ∷ es) fs = answered-append es fs
answered-append (write b ∷ es) fs = answered-append es fs
answered-append (handle_request m ∷ es) fs = answered-append es fs
answered-append (run_hook h ∷ es) fs = answered-append es fs
answered-append (shutdown_socket ∷ es) fs = answered-append es fs
answered-append (close_socket ∷ es) fs = answered-append es fs

pub answered-fail_all : (m : Message) (rs : List RequestCtx) → answered (fail_all m rs) ≡ proms rs
answered-fail_all m [] = refl
answered-fail_all m (r ∷ rs) = rw (answered-fail_all m rs)

answered-call_hook : (h : Option Hook) → answered (call_hook h) ≡ []
answered-call_hook none = refl
answered-call_hook (some h) = refl

answered-front : (q : List (Bytes × Option Bytes)) → answered (front q) ≡ []
answered-front [] = refl
answered-front (b ∷ q) = refl

answered-enqueue : (b : Bytes × Option Bytes) (s : Session) → answered (enqueue b s).1 ≡ []
unfolding enqueue
answered-enqueue b s = ground (arith, answered-front (s.msg_queue ++ (b ∷ [])))

pending-enqueue : (b : Bytes × Option Bytes) (s : Session) → pending (enqueue b s).0 ≡ pending s
unfolding enqueue
pending-enqueue b s = ground arith

-- How often the promise `p` is answered by the effects or outstanding in the session.
abbrev accounted : ℕ → Outcome → ℕ
accounted p o = count p (answered o.1) + count p (pending o.0)

find_req_promise-count :
    (i p q : ℕ) (rs rest : List RequestCtx)
    → find_req_promise i rs ≡ some (q, rest)
    → count p (proms rs) ≡ count p (q ∷ proms rest)
unfolding find_req_promise count
find_req_promise-count i p q [] rest e = cc
find_req_promise-count i p q (r ∷ rs) rest e = elim (Option-cases (find_req_promise i rs)) [
  | inl miss ↦ ground arith
  | inr ((q', rest'), hit) ↦ ground (arith, find_req_promise-count i p q' rs rest' hit)
]

enqueue-accounted :
    (p : ℕ) (b : Bytes × Option Bytes) (s : Session)
    → accounted p (enqueue b s) ≡ count p (pending s)
enqueue-accounted p b s =
    rw (answered-enqueue b s, pending-enqueue b s) (unfold count in omega arith)

handle_net_error-accounted :
    (p : ℕ) (ec : ErrorCode) (s : Session)
    → accounted p (handle_net_error ec s) ≡ count p (pending s)
unfolding handle_net_error
handle_net_error-accounted p ec s =
    rw
      (
        answered-append (fail_all (error_response ec) s.requests) (call_hook s.after_net_error),
        answered-fail_all (error_response ec) s.requests,
        answered-call_hook s.after_net_error,
        append-nil (pending s),
      )
      (unfold count in omega arith)

dispatch-accounted :
    (p : ℕ) (m : Option Message) (s : Session) → accounted p (dispatch m s) ≡ count p (pending s)
unfolding dispatch count
dispatch-accounted p none s = omega arith
dispatch-accounted p (some m) s = elim (Option-cases (find_req_promise (to_u64 m.id) s.requests)) [
  | inl miss ↦ rw (miss, dispatch) (ground arith)
  | inr ((q, rest), hit) ↦
      rw (hit, dispatch)
        (ground (arith, find_req_promise-count (to_u64 m.id) p q s.requests rest hit))
]

module _ (codec : Codec) (p : ℕ) where
  send_request-accounted :
      (q : ℕ) (m : Message) (now : ℕ) (s : Session)
      → accounted p (send_request codec q m now s) ≡ count p (q ∷ []) + count p (pending s)
  unfolding send_request
  send_request-accounted q m now s =
      rw (enqueue-accounted, map-append, count-append) (omega (arith, count-append p [] []))

  on_body-accounted :
      (b : Bytes) (s : Session) → accounted p (on_body codec b s) ≡ count p (pending s)
  unfolding on_body
  on_body-accounted b s =
      let o = dispatch (codec.parse (take (length b) (s.recv_buf ++ b))) s in
      rw (answered-append o.1 read_head, append-nil (answered o.1))
        (dispatch-accounted p (codec.parse (take (length b) (s.recv_buf ++ b))) s)

  step-accounted :
      (s : Session) (e : Event)
      → accounted p (step codec s e) ≡ count p (asked (e ∷ [])) + count p (pending s)
  unfolding step count
  step-accounted s started = ground arith
  step-accounted s stopped = ground arith
  step-accounted s (posted_request q m now) = send_request-accounted q m now s
  step-accounted s (posted_reply m) =
      unfold queue_rsp_msg in omega (arith, enqueue-accounted p (frame codec m, none) s)
  step-accounted s (posted_buffer i b) =
      unfold queue_rsp_buffer in
      omega (arith, enqueue-accounted p (buffer_head codec i b, some b) s)
  step-accounted s (head_read b) = unfold on_head in omega arith
  step-accounted s (body_read b) = omega (arith, on_body-accounted b s)
  step-accounted s written =
      unfold on_written write_data in rw (answered-front (drop 1 s.msg_queue)) (omega arith)
  step-accounted s (read_failed b ec) =
      omega (arith, handle_net_error-accounted p ec (record s { recv_buf = s.recv_buf ++ b }))
  step-accounted s (write_failed ec) = omega (arith, handle_net_error-accounted p ec s)

  asked-cons : (e : Event) (es : List Event) → asked (e ∷ es) ≡ asked (e ∷ []) ++ asked es
  asked-cons (posted_request q m t) es = refl
  asked-cons started es = refl
  asked-cons _ es = refl

  -- Over any history of events, from any state, each promise is answered in it or outstanding after
  -- it exactly as often as it was asked for in it or outstanding before it.
  pub accounted-run :
      (s : Session) (es : List Event)
      → count p (answered (run codec s es).1) + count p (pending (run codec s es).0)
        ≡ count p (asked es) + count p (pending s)
  unfolding run count
  accounted-run s [] = omega arith
  accounted-run s (e ∷ es) =
      let (t, out) = step codec s e in
      let (u, rest) = run codec t es in
      rw (answered-append out rest, asked-cons e es)
        (omega (
          arith,
          count-append p (answered out) (answered rest),
          count-append p (asked (e ∷ [])) (asked es),
          step-accounted s e,
          accounted-run t es,
        ))

  run-append :
      (s : Session) (es fs : List Event)
      → let (t, out) = run codec s es in
        let (u, rest) = run codec t fs in run codec s (es ++ fs) ≡ (u, out ++ rest)
  unfolding run
  run-append s [] fs = refl
  run-append s (e ∷ es) fs =
      let (t, out) = step codec s e in
      let (u, more) = run codec t es in
      rw (run-append t es fs) (rw (append_assoc out more (run codec u fs).1) refl)

  asked-append : (es fs : List Event) → asked (es ++ fs) ≡ asked es ++ asked fs
  asked-append [] fs = refl
  asked-append (e ∷ es) fs =
      rw (asked-cons e (es ++ fs), asked-cons e es, asked-append es fs)
        (sym (append_assoc (asked (e ∷ [])) (asked es) (asked fs)))

  pending-failed :
      (s : Session) (es : List Event) (b : Bytes) (ec : ErrorCode)
      → pending (run codec s (es ++ (read_failed b ec ∷ []))).0 ≡ []
  unfolding step handle_net_error
  pending-failed s es b ec = rw (run-append s es (read_failed b ec ∷ [])) (unfold run in refl)

  -- When a history ends with a failed read, each promise has been answered in it exactly as often
  -- as it was asked for in it or outstanding before it.
  pub answered-run_failed :
      (s : Session) (es : List Event) (b : Bytes) (ec : ErrorCode)
      → count p (answered (run codec s (es ++ (read_failed b ec ∷ []))).1)
        ≡ count p (asked es) + count p (pending s)
  unfolding count
  answered-run_failed s es b ec = omega (
    arith,
    accounted-run s (es ++ (read_failed b ec ∷ [])),
    ap (count p) (pending-failed s es b ec),
    ap (count p) (asked-append es (read_failed b ec ∷ []) ∙ append-nil (asked es)),
  )
