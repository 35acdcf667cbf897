-- ===== src/Client/Backoff.antt =====
-- How long a client waits between attempts to connect (TcpClient.cpp: asyncConnect).
use Prim.Native.Nat.{min}
use ad_manager.Base.{
  ℕ, zero, suc, ◌+◌, ◌*◌, ◌^◌, ◌≤◌, ◌≡◌, refl, ap, ◌∙◌, true, false, some, List, [], arith, ltb,
  ◌==◌, if◌then◌else◌, ==_iff, holds_up_to, test-holds_up_to,
}
use ad_manager.Message.Types.{Codec}
use ad_manager.Session.Types.{Event}
use ad_manager.Session.Ops.{run, start_session}
use ad_manager.Session.Hooks.{hooks, hooks-run_quiet}
use ad_manager.Client.{Client, async_connect, on_connect, stop, limit}

-- One attempt that fails.
abbrev pub failed_attempt : Client → Client
failed_attempt c = (on_connect false (async_connect c.endpoint c)).0

pub fail_times : ℕ → Client → Client
fail_times zero c = c
fail_times (suc n) c = fail_times n (failed_attempt c)

next_interval : ℕ → ℕ
next_interval i = if ltb i limit then i * 2 else i

next_interval-table : holds_up_to (λ k. next_interval (2 ^ k) == 2 ^ min 10 (k + 1)) 11 ≡ true
unfolding holds_up_to next_interval
next_interval-table = refl

next_interval-pow : (k : ℕ) → k ≤ 10 → next_interval (2 ^ k) ≡ 2 ^ min 10 (k + 1)
next_interval-pow k h = (==_iff _ _).0 (test-holds_up_to _ 11 k (omega arith) next_interval-table)

failed_attempt-interval :
    (c : Client) → (failed_attempt c).reconnect_interval ≡ next_interval c.reconnect_interval
unfolding async_connect on_connect next_interval
failed_attempt-interval c = refl

fail_times-interval :
    (n k : ℕ) (c : Client)
    → c.reconnect_interval ≡ 2 ^ k
    → k ≤ 10
    → (fail_times n c).reconnect_interval ≡ 2 ^ min 10 (k + n)
unfolding fail_times
fail_times-interval zero k c e h = e ∙ ap (λ m. 2 ^ m) (omega arith)
fail_times-interval (suc n) k c e h =
    fail_times-interval n (min 10 (k + 1)) (failed_attempt c) doubled (omega arith)
    ∙ ap (λ m. 2 ^ m) (omega arith)
  where
    doubled : (failed_attempt c).reconnect_interval ≡ 2 ^ min 10 (k + 1)
    doubled = failed_attempt-interval c ∙ ap next_interval e ∙ next_interval-pow k h

fail_times-timer :
    (n : ℕ) (c : Client)
    → (fail_times (suc n) c).reconnect_timer ≡ some (fail_times (suc n) c).reconnect_interval
unfolding fail_times
fail_times-timer zero c = unfold on_connect in refl
fail_times-timer (suc n) c = fail_times-timer n (failed_attempt c)

-- After a connection was made, the n-th attempt in a row that fails (n from 1) is followed by a
-- wait of 2^n seconds, for n up to 10, and of 2^10 seconds from then on.
pub backoff_wait :
    (n : ℕ) (c : Client)
    → (fail_times (suc n) (on_connect true c).0).reconnect_timer ≡ some (2 ^ min 10 (suc n))
unfolding on_connect start_session
backoff_wait n c =
    fail_times-timer n (on_connect true c).0
    ∙ ap some (
        fail_times-interval (suc n) 0 (on_connect true c).0 refl (omega arith)
        ∙ ap (λ m. 2 ^ m) (omega arith))

-- After `stop`, the session does not ask to reconnect, whatever events follow.
pub stop_quiet :
    (codec : Codec) (c : Client) (es : List Event) → hooks (run codec (stop c).0.session es).1 ≡ []
unfolding stop
stop_quiet codec c es = hooks-run_quiet codec (stop c).0.session es refl
