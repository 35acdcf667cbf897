-- ===== src/Session/Numbers.antt =====
-- The numbers of outstanding requests are distinct, so a response finds its own request
-- (TcpSession.cpp: request, findReqPromise). `_msgID` is a uint32_t and wraps.
use ad_manager.Base.{
  ℕ, ◌+◌, ◌-◌, ◌%◌, ◌≤◌, ◌<◌, ◌≡◌, refl, sym, ◌∙◌, subst, inl, inr, Option, none, some, List, [],
  ◌∷◌, ◌++◌, arith, ◌==◌, ==_refl, Bool-cases, Option-cases, length, is_empty, take, take_all,
  drop_all, to_u64,
}
use ad_manager.Wire.{Bytes}
use ad_manager.Message.Types.{Message, Codec}
use ad_manager.Session.Types.{
  RequestCtx, Session, Event, set_value, started, posted_request, posted_reply, posted_buffer,
  body_read, read_failed, write_failed, new_session,
}
use ad_manager.Session.Ops.{
  find_req_promise, dispatch, on_body, step, run, read_head, enqueue, send_request, queue_rsp_msg,
  queue_rsp_buffer, on_head, dispatch_to, on_written, handle_net_error, start_session, stop_session,
}
use ad_manager.Session.Promises.{asked}

abbrev pub u32_mod : ℕ
u32_mod = 4294967296

-- How many numbers ago `i` was given out, when `n` is the next.
abbrev pub age : ℕ → ℕ → ℕ
age n i = (n + u32_mod - i) % u32_mod

-- The ages fall along the list, from below `lim` down to 1 at least.
abbrev pub Window : ℕ → ℕ → List RequestCtx → Type 0
Window n lim [] = Unit {0}
Window n lim (r ∷ rs) =
    (r.msg_id < u32_mod)
    × (0 < age n r.msg_id)
    × (age n r.msg_id < lim)
    × Window n (age n r.msg_id) rs

Window-mono : (n a b : ℕ) (rs : List RequestCtx) → a ≤ b → Window n a rs → Window n b rs
Window-mono n a b [] h w = tt
Window-mono n a b (r ∷ rs) h w = (w.0, w.1, omega arith, w.3)

pub Window-last :
    (n lim : ℕ) (xs ys : List RequestCtx) (r : RequestCtx)
    → Window n lim (xs ++ (r ∷ ys))
    → (age n r.msg_id < lim) × (r.msg_id < u32_mod)
Window-last n lim [] ys r w = (w.2, w.0)
Window-last n lim (x ∷ xs) ys r w = omega (arith, Window-last n (age n x.msg_id) xs ys r w.3)

-- The request with a response's number is found, whatever stands before it.
pub find_req_promise-Window :
    (n lim : ℕ) (xs ys : List RequestCtx) (r : RequestCtx)
    → Window n lim (xs ++ (r ∷ ys))
    → find_req_promise r.msg_id (xs ++ (r ∷ ys)) ≡ some (r.prom, xs ++ ys)
unfolding find_req_promise
find_req_promise-Window n lim [] ys r w = rw (==_refl r.msg_id) refl
find_req_promise-Window n lim (x ∷ xs) ys r w = ground (
  arith,
  find_req_promise-Window n (age n x.msg_id) xs ys r w.3,
  Window-last n (age n x.msg_id) xs ys r w.3,
)

abbrev next : ℕ → ℕ
next n = (n + 1) % u32_mod

age-next :
    (n i lim : ℕ)
    → n < u32_mod
    → i < u32_mod
    → age n i < lim
    → lim < u32_mod
    → age (next n) i ≡ age n i + 1
age-next n i lim hn hi h k = omega arith

Window-snoc :
    (n lim : ℕ) (rs : List RequestCtx) (r : RequestCtx)
    → n < u32_mod
    → 0 < lim
    → lim < u32_mod
    → r.msg_id ≡ n
    → Window n lim rs
    → Window (next n) (lim + 1) (rs ++ (r ∷ []))
Window-snoc n lim [] r hn pos_lim hl e w = (omega arith, omega arith, omega arith, tt)
Window-snoc n lim (x ∷ rs) r hn pos_lim hl e w =
    let older : age (next n) x.msg_id ≡ age n x.msg_id + 1 =
      age-next n x.msg_id lim hn w.0 w.2 hl in
    (
      w.0,
      omega arith,
      omega arith,
      subst (λ a. Window (next n) a (rs ++ (r ∷ []))) (sym older)
          (Window-snoc n (age n x.msg_id) rs r hn w.1 (omega arith) e w.3),
    )

Window-find :
    (n lim i p : ℕ) (rs rest : List RequestCtx)
    → find_req_promise i rs ≡ some (p, rest)
    → Window n lim rs
    → Window n lim rest
unfolding find_req_promise
Window-find n lim i p [] rest e w = cc
Window-find n lim i p (r ∷ rs) rest e w = elim (Bool-cases (r.msg_id == i)) [
  | inl hit ↦
      subst (Window n lim) (ground arith) (Window-mono n (age n r.msg_id) lim rs (omega arith) w.3)
  | inr miss ↦ elim (Option-cases (find_req_promise i rs)) [
    | inl none_left ↦ ground arith
    | inr ((q, left), found) ↦
        let same : r ∷ left ≡ rest = ground arith in
        subst (Window n lim) same
          (w.0, w.1, w.2, Window-find n (age n r.msg_id) i q rs left found w.3)
  ]
]

-- The session's number is a uint32_t, and its requests are among the last `lim` numbers given out.
pub record IsNumbered (lim : ℕ) (s : Session) : Type 0 where
  pub word : s.msg_id < u32_mod
  pub recent : Window s.msg_id lim s.requests

new_session-IsNumbered : IsNumbered 1 new_session
unfolding new_session
new_session-IsNumbered = record { word = omega arith; recent = tt }

IsNumbered-mono : (a b : ℕ) {s : Session} → a ≤ b → IsNumbered a s → IsNumbered b s
IsNumbered-mono a b {s} h v = record {
  word = v.word;
  recent = Window-mono s.msg_id a b s.requests h v.recent;
}

dispatch-IsNumbered :
    (lim : ℕ) (m : Option Message) (s : Session)
    → IsNumbered lim s
    → IsNumbered lim (dispatch m s).0
unfolding dispatch
dispatch-IsNumbered lim none s v = v
dispatch-IsNumbered lim (some m) s v =
    elim (Option-cases (find_req_promise (to_u64 m.id) s.requests)) [
      | inl miss ↦ rw (miss, dispatch) v
      | inr ((q, rest), hit) ↦
          rw (hit, dispatch)
            (record {
              word = v.word;
              recent = Window-find s.msg_id lim (to_u64 m.id) q s.requests rest hit v.recent;
            })
    ]

enqueue-IsNumbered :
    (lim : ℕ) (b : Bytes × Option Bytes) (s : Session)
    → IsNumbered lim s
    → IsNumbered lim (enqueue b s).0
unfolding enqueue
enqueue-IsNumbered lim b s v = elim (Bool-cases (is_empty s.msg_queue)) [
  | inl e ↦ rw (e, enqueue) (record { word = v.word; recent = v.recent })
  | inr e ↦ rw (e, enqueue) (record { word = v.word; recent = v.recent })
]

module _ (codec : Codec) where
  step-IsNumbered :
      (lim : ℕ) (s : Session) (e : Event)
      → 0 < lim
      → lim + length (asked (e ∷ [])) ≤ u32_mod
      → IsNumbered lim s
      → IsNumbered (lim + length (asked (e ∷ []))) (step codec s e).0
  unfolding step send_request queue_rsp_msg queue_rsp_buffer on_head on_body on_written
      handle_net_error start_session stop_session
  step-IsNumbered lim s (posted_request q m now) pos_lim room v =
      enqueue-IsNumbered (lim + 1) _ _ (record {
        word = omega arith;
        recent = Window-snoc s.msg_id lim s.requests _ v.word pos_lim (omega arith) refl v.recent;
      })
  step-IsNumbered lim s (posted_reply m) pos_lim room v =
      IsNumbered-mono lim (lim + 0) (omega arith) (enqueue-IsNumbered lim _ s v)
  step-IsNumbered lim s (posted_buffer i b) pos_lim room v =
      IsNumbered-mono lim (lim + 0) (omega arith) (enqueue-IsNumbered lim _ s v)
  step-IsNumbered lim s (body_read b) pos_lim room v =
      let t = dispatch-IsNumbered lim (codec.parse (take (length b) (s.recv_buf ++ b))) s v in
      IsNumbered-mono lim (lim + 0) (omega arith) (record { word = t.word; recent = t.recent })
  step-IsNumbered lim s (read_failed b ec) pos_lim room v = record { word = v.word; recent = tt }
  step-IsNumbered lim s (write_failed ec) pos_lim room v = record { word = v.word; recent = tt }
  step-IsNumbered lim s _ pos_lim room v =
      let w = Window-mono s.msg_id lim (lim + 0) s.requests (omega arith) v.recent in
      record { word = v.word; recent = w }

  length-asked-cons :
      (e : Event) (es : List Event)
      → length (asked (e ∷ es)) ≡ length (asked (e ∷ [])) + length (asked es)
  length-asked-cons (posted_request q m t) es = omega arith
  length-asked-cons started es = omega arith
  length-asked-cons _ es = omega arith

  -- If the outstanding requests have numbers among the last `lim`, each younger than the one before
  -- it in the list, then after a history with n requests, where lim + n is 2^32 at most, they have
  -- numbers among the last lim + n, in the same order: so they are distinct.
  pub run-IsNumbered :
      (lim : ℕ) (s : Session) (es : List Event)
      → 0 < lim
      → lim + length (asked es) ≤ u32_mod
      → IsNumbered lim s
      → IsNumbered (lim + length (asked es)) (run codec s es).0
  unfolding run
  run-IsNumbered lim s [] pos_lim room v = IsNumbered-mono lim (lim + 0) (omega arith) v
  run-IsNumbered lim s (e ∷ es) pos_lim room v =
      let split = length-asked-cons e es in
      let v' = step-IsNumbered lim s e pos_lim (omega arith) v in
      IsNumbered-mono (lim + length (asked (e ∷ [])) + length (asked es)) _ (omega arith) (
        run-IsNumbered (lim + length (asked (e ∷ []))) (step codec s e).0 es (omega arith)
          (omega arith) v')

  -- With nothing left over in the buffer, the message is read from the bytes that came.
  pub on_body_idle :
      (b : Bytes) (s : Session)
      → s.recv_buf ≡ []
      → on_body codec b s ≡ (
        record (dispatch (codec.parse b) s).0 { recv_buf = [] },
        (dispatch (codec.parse b) s).1 ++ read_head,
      )
  unfolding on_body
  on_body_idle b s idle = rw idle (rw (take_all b, drop_all b) refl)

  -- When the outstanding requests are numbered, the buffer is empty and the bytes that come are a
  -- message with the number of one of them, that message is given to the promise of this request
  -- and to no other; the request is no longer outstanding; the next read is that of a length.
  pub response_reaches_request :
      (s : Session) (lim : ℕ) (xs ys : List RequestCtx) (r : RequestCtx) (b : Bytes) (m : Message)
      → IsNumbered lim s
      → s.requests ≡ xs ++ (r ∷ ys)
      → s.recv_buf ≡ []
      → codec.parse b ≡ some m
      → to_u64 m.id ≡ r.msg_id
      → step codec s (body_read b)
        ≡ (record s { requests = xs ++ ys; recv_buf = [] }, set_value r.prom m ∷ read_head)
  unfolding step dispatch
  response_reaches_request s lim xs ys r b m v at idle parsed same =
      let found =
        find_req_promise-Window s.msg_id lim xs ys r (subst (Window s.msg_id lim) at v.recent) in
      on_body_idle b s idle ∙ rw (parsed, dispatch) (rw (same, at, found, dispatch_to) refl)
