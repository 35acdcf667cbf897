-- ===== src/Server/Pool.antt =====
-- Which sessions stand in the pool (TcpServer.cpp: startSession and the hook that it sets).
use ad_manager.Server.{accept_ends, happens, Happening, server_run, server_step, start, new_server}
use ad_manager.Base.{
  ℕ, suc, ◌≤◌, ◌<◌, ◌≡◌, refl, ap, ◌∙◌, subst, inl, inr, Bool, true, false, Option, none, some,
  List, [], ◌∷◌, ◌++◌, arith, ◌==◌, if◌then◌else◌, Bool-cases, Option-cases, length, take, All,
  find,
}
use ad_manager.Message.Types.{Codec, Message}
use ad_manager.Session.Types.{
  Session, Event, leave_pool, started, stopped, posted_request, posted_reply, posted_buffer,
  head_read, body_read, written, read_failed, write_failed,
}
use ad_manager.Wire.{Bytes}
use ad_manager.Session.Ops.{
  step, enqueue, dispatch, queue_rsp_msg, queue_rsp_buffer, on_head, on_body, on_written,
}
use ad_manager.Session.Hooks.{hooks, is_failure, as_list, step-hooks}
use ad_manager.Server.{Server, on_accept, on_event, run_hooks, erase, update}

-- A session that is connected and answers requests, and that leaves the pool when it fails.
pub record IsServing (s : Session) : Type 0 where
  pub connected : s.is_connected ≡ true
  pub handles : s.request_handler ≡ true
  pub hooked : s.after_net_error ≡ some leave_pool

pub record IsSound (v : Server) : Type 0 where
  pub serving : All (λ p. IsServing p.1) v.session_pool
  pub numbered : All (λ p. p.0 < v.next_session) v.session_pool
  pub waiting : (i : ℕ) (s : Session) → v.accepting ≡ some (i, s) → i < v.next_session

-- What can happen to a session of the pool: it makes no requests, and is stopped and started by
-- the server only.
abbrev pub is_served : Event → Bool
is_served (posted_request p m t) = false
is_served started = false
is_served stopped = false
is_served (posted_reply m) = true
is_served (posted_buffer i b) = true
is_served (head_read b) = true
is_served (body_read b) = true
is_served written = true
is_served (read_failed b ec) = true
is_served (write_failed ec) = true

abbrev pub is_served_one : Happening → Bool
is_served_one (accept_ends b) = true
is_served_one (happens i e) = is_served e

pub start-IsSound : IsSound (start new_server)
unfolding start new_server
start-IsSound = record { serving = tt; numbered = tt; waiting = λ i s e. ground arith }

abbrev Kept : Session → Session → Type 0
Kept s t = (t.is_connected ≡ s.is_connected) × (t.request_handler ≡ s.request_handler)

enqueue-Kept : (b : Bytes × Option Bytes) (s : Session) → Kept s (enqueue b s).0
unfolding enqueue
enqueue-Kept b s = ground arith

dispatch-Kept : (m : Option Message) (s : Session) → Kept s (dispatch m s).0
unfolding dispatch
dispatch-Kept none s = (refl, refl)
dispatch-Kept (some m) s = ground arith

All-find :
    (P : Session → Type 0) (i : ℕ) (s : Session) (p : List (ℕ × Session))
    → find i p ≡ some s
    → All (λ e. P e.1) p
    → P s
unfolding find
All-find P i s [] e a = cc
All-find P i s ((j, t) ∷ p) e a = elim (Bool-cases (j == i)) [
  | inl hit ↦ subst P (ground arith) a.0
  | inr miss ↦ All-find P i s p (ground arith) a.1
]

All-erase {κ} :
    (P : ℕ × Session → Type κ) (i : ℕ) (p : List (ℕ × Session)) → All P p → All P (erase i p)
All-erase P i [] a = tt
All-erase P i ((j, t) ∷ p) a = elim (Bool-cases (j == i)) [
  | inl hit ↦ rw (hit, erase) (All-erase P i p a.1)
  | inr miss ↦ rw (miss, erase) (a.0, All-erase P i p a.1)
]

-- The new entry has the key of the old one.
All-update {κ} :
    (P : ℕ × Session → Type κ) (i : ℕ) (t : Session) (p : List (ℕ × Session))
    → ((j : ℕ) (s : Session) → P (j, s) → P (j, t))
    → All P p
    → All P (update i t p)
All-update P i t [] new a = tt
All-update P i t ((j, s) ∷ p) new a = elim (Bool-cases (j == i)) [
  | inl hit ↦ rw (hit, update) (new j s a.0, All-update P i t p new a.1)
  | inr miss ↦ rw (miss, update) (a.0, All-update P i t p new a.1)
]

erase-update : (i : ℕ) (t : Session) (p : List (ℕ × Session)) → erase i (update i t p) ≡ erase i p
erase-update i t [] = refl
erase-update i t ((j, s) ∷ p) = ground (arith, erase-update i t p)

find-erase :
    (i j : ℕ) (p : List (ℕ × Session)) → find j (erase i p) ≡ (if i == j then none else find j p)
unfolding find
find-erase i j [] = ground arith
find-erase i j ((k, s) ∷ p) = ground (arith, find-erase i j p)

module _ (codec : Codec) where
  step-Kept :
      (s : Session) (e : Event)
      → is_served e ≡ true
      → is_failure e ≡ false
      → Kept s (step codec s e).0
  unfolding step on_body
  step-Kept s (posted_request p m t) h f = ground arith
  step-Kept s (posted_reply m) h f = unfold queue_rsp_msg in enqueue-Kept _ s
  step-Kept s (posted_buffer i b) h f = unfold queue_rsp_buffer in enqueue-Kept _ s
  step-Kept s (head_read b) h f = unfold on_head in (refl, refl)
  step-Kept s (body_read b) h f = dispatch-Kept (codec.parse (take (length b) (s.recv_buf ++ b))) s
  step-Kept s written h f = unfold on_written in (refl, refl)
  step-Kept s (read_failed b ec) h f = ground arith
  step-Kept s (write_failed ec) h f = ground arith
  step-Kept s started h f = ground arith
  step-Kept s stopped h f = ground arith

  step-IsServing :
      (s : Session) (e : Event)
      → is_served e ≡ true
      → is_failure e ≡ false
      → IsServing s
      → IsServing (step codec s e).0
  step-IsServing s e h f v = record {
    connected = (step-Kept s e h f).0 ∙ v.connected;
    handles = (step-Kept s e h f).1 ∙ v.handles;
    hooked = (step-hooks codec s e).1 ∙ v.hooked;
  }

  hooks_of_failure :
      (s : Session) (e : Event)
      → IsServing s
      → hooks (step codec s e).1 ≡ (if is_failure e then leave_pool ∷ [] else [])
  hooks_of_failure s e v =
      (step-hooks codec s e).0 ∙ ap (λ h. if is_failure e then as_list h else []) v.hooked

  -- Whatever happens to a session that the pool holds, the pool holds only sessions that are
  -- connected and answer requests: a session that fails is no longer in it.
  on_event-IsSound :
      (v : Server) (i : ℕ) (e : Event)
      → is_served e ≡ true
      → IsSound v
      → IsSound (on_event codec i e v).0
  unfolding on_event
  on_event-IsSound v i e h ok = elim (Option-cases (find i v.session_pool)) [
    | inl missing ↦ rw (missing, on_event) ok
    | inr (s, here) ↦
        let serves = All-find IsServing i s v.session_pool here ok.serving in
        rw (here, on_event)
          (rw (hooks_of_failure s e serves) (elim (Bool-cases (is_failure e)) [
            | inl failed ↦
                rw (failed, run_hooks)
                  (record {
                    serving =
                        rw (erase-update i (step codec s e).0 v.session_pool)
                          (All-erase _ i v.session_pool ok.serving);
                    numbered =
                        rw (erase-update i (step codec s e).0 v.session_pool)
                          (All-erase _ i v.session_pool ok.numbered);
                    waiting = ok.waiting;
                  })
            | inr fine ↦
                rw (fine, run_hooks)
                  (record {
                    serving =
                        All-update _ i (step codec s e).0 v.session_pool
                          (λ j u w. step-IsServing s e h fine serves) ok.serving;
                    numbered =
                        All-update _ i (step codec s e).0 v.session_pool (λ j u w. w) ok.numbered;
                    waiting = ok.waiting;
                  })
          ]))
  ]

  All-below :
      (m n : ℕ) (p : List (ℕ × Session)) → m ≤ n → All (λ e. e.0 < m) p → All (λ e. e.0 < n) p
  All-below m n [] h a = tt
  All-below m n (e ∷ p) h a = (omega arith, All-below m n p h a.1)

  on_accept-IsSound : (v : Server) (b : Bool) → IsSound v → IsSound (on_accept b v).0
  unfolding on_accept
  on_accept-IsSound v b ok = elim (Option-cases v.accepting) [
    | inl nobody ↦ rw (nobody, on_accept) ok
    | inr ((i, s), somebody) ↦
        rw (somebody, on_accept)
          (elim (Bool-cases b) [
            | inl fine ↦ rw fine (record {
              serving = (record { connected = refl; handles = refl; hooked = refl }, ok.serving);
              numbered = (
                omega (arith, ok.waiting i s somebody),
                All-below v.next_session (suc v.next_session) v.session_pool (omega arith)
                    ok.numbered,
              );
              waiting = λ j u e. ground arith;
            })
            | inr error ↦ rw error (record {
              serving = ok.serving;
              numbered =
                  All-below v.next_session (suc v.next_session) v.session_pool (omega arith)
                    ok.numbered;
              waiting = λ j u e. ground arith;
            })
          ])
  ]

  -- If a server's pool holds only sessions that are connected, answer requests and leave the pool
  -- when they fail, with numbers that were given out, it does so after every history in which its
  -- sessions make no requests and are started and stopped by the server only.
  pub server_run-IsSound :
      (v : Server) (hs : List Happening)
      → All (λ h. is_served_one h ≡ true) hs
      → IsSound v
      → IsSound (server_run codec v hs).0
  unfolding server_run server_step
  server_run-IsSound v [] a ok = ok
  server_run-IsSound v (accept_ends b ∷ hs) a ok =
      server_run-IsSound (on_accept b v).0 hs a.1 (on_accept-IsSound v b ok)
  server_run-IsSound v (happens i e ∷ hs) a ok =
      server_run-IsSound (on_event codec i e v).0 hs a.1 (on_event-IsSound v i e a.0 ok)

  -- A failure of a session that serves in the pool takes this session out of the pool and leaves
  -- every other as it is.
  pub failure_leaves_pool :
      (v : Server) (i j : ℕ) (s : Session) (e : Event)
      → find i v.session_pool ≡ some s
      → IsServing s
      → is_failure e ≡ true
      → find j (on_event codec i e v).0.session_pool
        ≡ (if i == j then none else find j v.session_pool)
  unfolding on_event
  failure_leaves_pool v i j s e here serves failed =
      rw (here, on_event)
        (rw (hooks_of_failure s e serves) (
          rw (failed, run_hooks)
            (rw (erase-update i (step codec s e).0 v.session_pool)
              (find-erase i j v.session_pool))))
