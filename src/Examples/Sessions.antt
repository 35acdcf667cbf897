-- ===== src/Examples/Sessions.antt =====
-- The theorems on sessions and clients at concrete inputs.
use ad_manager.Base.{
  ◌+◌, ◌≡◌, refl, true, some, List, [], ◌∷◌, ◌++◌, arith, length, drop, count, pos, to_u64, to_i64,
}
use ad_manager.Session.Types.{
  Event, posted_request, body_read, head_read, read_failed, write_failed, written, started,
  set_value, read_exactly, handle_request,
}
use ad_manager.Session.Ops.{step, run, frame, buffer_head, read_head}
use ad_manager.Session.Promises.{accounted-run, answered-run_failed, answered, asked, pending}
use ad_manager.Session.Numbers.{run-IsNumbered, response_reaches_request, IsNumbered}
use ad_manager.Session.Writes.{run-sent, sent, queued, all_offered}
use ad_manager.Session.Stall.{stalled, NoneWritten}
use ad_manager.Session.Frames.{
  request_arrives, buffer_arrives, stale_length, receive, numbered_body,
}
use ad_manager.Session.Hooks.{hooks}
use ad_manager.Client.{Client, on_connect, new_client, stop}
use ad_manager.Client.Backoff.{backoff_wait, stop_quiet, fail_times}
use ad_manager.Examples.Data.{
  wire, asking, answer, asking-Accepts, answer-Accepts, asking-size, numbered_answer-size, answer_2,
  answer_2-parsed, waiting, serving, reset, request_1, request_2,
}

-- A request is made and the connection fails.
abbrev history : List Event
history = posted_request 42 asking 0 ∷ written ∷ read_failed [] reset ∷ []

accounted-run_example :
    count 42 (answered (run wire waiting history).1)
      + count 42 (pending (run wire waiting history).0)
    ≡ count 42 (asked history) + count 42 (pending waiting)
accounted-run_example = accounted-run wire 42 waiting history

answered-run_failed_example :
    count 40 (answered (run wire waiting (history ++ (read_failed [] reset ∷ []))).1)
    ≡ count 40 (asked history) + count 40 (pending waiting)
answered-run_failed_example = answered-run_failed wire 40 waiting history [] reset

waiting-IsNumbered : IsNumbered 3 waiting
waiting-IsNumbered = record {
  word = omega arith;
  recent = (omega arith, omega arith, omega arith, (omega arith, omega arith, omega arith, tt));
}

run-IsNumbered_example : IsNumbered (3 + length (asked history)) (run wire waiting history).0
run-IsNumbered_example =
    run-IsNumbered wire 3 waiting history (omega arith) (omega arith) waiting-IsNumbered

run-sent_example :
    drop 1 (queued waiting) ++ all_offered wire waiting history
    ≡ sent (run wire waiting history).1 ++ drop 1 (queued (run wire waiting history).0)
run-sent_example = run-sent wire waiting history

none_written : NoneWritten (write_failed reset ∷ started ∷ posted_request 42 asking 0 ∷ [])
none_written = ((λ e. cc), ((λ e. cc), ((λ e. cc), tt)))

stalled_example :
    sent (run wire waiting (write_failed reset ∷ started ∷ posted_request 42 asking 0 ∷ [])).1 ≡ []
stalled_example =
    stalled wire waiting (write_failed reset ∷ started ∷ posted_request 42 asking 0 ∷ []) refl
      none_written

request_arrives_example : run wire serving (receive (frame wire asking)) ≡ (
  serving,
  read_exactly (length (wire.serialize asking))
      ∷ handle_request (record asking { return_code = pos 0 })
      ∷ read_head,
)
request_arrives_example =
    request_arrives wire serving asking asking-Accepts (omega (arith, asking-size)) refl refl refl

response_reaches_request_example : step wire waiting (body_read (wire.serialize answer_2)) ≡ (
  record waiting { requests = request_1 ∷ []; recv_buf = [] },
  set_value 41 answer_2 ∷ read_head,
)
response_reaches_request_example =
    response_reaches_request wire waiting 3 (request_1 ∷ []) [] request_2 _ answer_2
      waiting-IsNumbered refl refl answer_2-parsed (unfold to_u64 in refl)

buffer_arrives_example :
    run wire waiting (receive (buffer_head wire 1 (wire.serialize answer) ++ wire.serialize answer))
    ≡ (
      record waiting { requests = request_2 ∷ []; recv_buf = [] },
      read_exactly (length (numbered_body wire 1 answer))
          ∷ set_value 40 (record answer { id = to_i64 1 })
          ∷ read_head,
    )
buffer_arrives_example =
    buffer_arrives wire waiting 3 [] (request_2 ∷ []) request_1 answer waiting-IsNumbered refl refl
      answer-Accepts refl (omega (arith, numbered_answer-size))

stale_length_example :
    (step wire
      (run wire waiting (read_failed (1 ∷ 2 ∷ 3 ∷ 4 ∷ []) reset ∷ started ∷ [])).0
      (head_read (0 ∷ 0 ∷ 0 ∷ 5 ∷ []))).1
    ≡ (step wire
        (run wire waiting (read_failed (1 ∷ 2 ∷ 3 ∷ 4 ∷ []) reset ∷ started ∷ [])).0
        (head_read (0 ∷ 0 ∷ 0 ∷ 6 ∷ []))).1
stale_length_example =
    stale_length wire waiting (1 ∷ 2 ∷ 3 ∷ 4 ∷ []) (0 ∷ 0 ∷ 0 ∷ 5 ∷ []) (0 ∷ 0 ∷ 0 ∷ 6 ∷ []) reset
      (omega arith)

abbrev client : Client
client = new_client (record { address = []; port = 80 })

backoff_wait_example : (fail_times 3 (on_connect true client).0).reconnect_timer ≡ some 8
backoff_wait_example = backoff_wait 2 client

stop_quiet_example : hooks (run wire (stop client).0.session history).1 ≡ []
stop_quiet_example = stop_quiet wire client history
