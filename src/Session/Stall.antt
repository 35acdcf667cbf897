-- ===== src/Session/Stall.antt =====
-- What a failed write leaves behind (TcpSession.cpp: handleNetError, writeData). The queue of
-- frames is not cleared, and a closure starts a write only if it finds the queue empty.
use ad_manager.Base.{
  ◌≡◌, refl, ◌≢◌, false, Option, List, [], ◌∷◌, ◌++◌, length, is_empty, take, All,
}
use ad_manager.Wire.{Bytes}
use ad_manager.Message.Types.{Codec}
use ad_manager.Session.Types.{
  Session, Event, started, stopped, posted_request, posted_reply, posted_buffer, head_read,
  body_read, written, read_failed, write_failed,
}
use ad_manager.Session.Ops.{
  step, run, enqueue, read_head, handle_net_error, start_session, stop_session, send_request,
  queue_rsp_msg, queue_rsp_buffer, on_head, on_body, dispatch,
}
use ad_manager.Session.Writes.{sent, sent-append, sent-failed, dispatch-queue, dispatch-sent}

-- No write is in progress that could complete.
abbrev pub NoneWritten : List Event → Type 0
NoneWritten = All (λ e. e ≢ written)

abbrev Waits : Session → Type 0
Waits s = is_empty s.msg_queue ≡ false

is_empty-snoc :
    (q : List (Bytes × Option Bytes)) (b : Bytes × Option Bytes) → is_empty (q ++ (b ∷ [])) ≡ false
is_empty-snoc [] b = refl
is_empty-snoc (c ∷ q) b = refl

enqueue-Waits :
    (b : Bytes × Option Bytes) (s : Session)
    → Waits s
    → (sent (enqueue b s).1 ≡ []) × Waits (enqueue b s).0
unfolding enqueue
enqueue-Waits b s w = rw (w, enqueue) (refl, is_empty-snoc s.msg_queue b)

module _ (codec : Codec) where
  step-Waits :
      (s : Session) (e : Event)
      → e ≢ written
      → Waits s
      → (sent (step codec s e).1 ≡ []) × Waits (step codec s e).0
  unfolding step on_body
  step-Waits s (posted_request p m t) h w = unfold send_request in enqueue-Waits _ _ w
  step-Waits s (posted_reply m) h w = unfold queue_rsp_msg in enqueue-Waits _ s w
  step-Waits s (posted_buffer i b) h w = unfold queue_rsp_buffer in enqueue-Waits _ s w
  step-Waits s (head_read b) h w = unfold on_head in (refl, w)
  step-Waits s (body_read b) h w =
      let m = codec.parse (take (length b) (s.recv_buf ++ b)) in
      (
        rw (sent-append (dispatch m s).1 read_head, dispatch-sent m s) refl,
        rw (dispatch-queue m s) w,
      )
  step-Waits s written h w = absurd (h refl)
  step-Waits s (read_failed b ec) h w = unfold handle_net_error in (sent-failed ec s, w)
  step-Waits s (write_failed ec) h w = unfold handle_net_error in (sent-failed ec s, w)
  step-Waits s started h w = unfold start_session in (refl, w)
  step-Waits s stopped h w = unfold stop_session in (refl, w)

  -- The queue outlives a failed connection: with a frame left in it and no write that completes,
  -- nothing is written any more, whatever is requested and however often it reconnects.
  pub stalled :
      (s : Session) (es : List Event)
      → is_empty s.msg_queue ≡ false
      → NoneWritten es
      → sent (run codec s es).1 ≡ []
  unfolding run
  stalled s [] w h = refl
  stalled s (e ∷ es) w h =
      let (t, out) = step codec s e in
      let (quiet, w') = step-Waits s e h.0 w in
      rw (sent-append out (run codec t es).1, quiet) (stalled t es w' h.1)
