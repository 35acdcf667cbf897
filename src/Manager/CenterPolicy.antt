-- ===== src/Manager/CenterPolicy.antt =====
-- From the center through the server of the bar to its clients: the policy, as the generated class
-- writes and reads it (AdManager.cpp, ad/AdPlayPolicy.pb.cc).
use ad_manager.Base.{
  ◌≡◌, refl, sym, ap, ◌∙◌, subst, true, false, Option, none, some, List, arith, if_both, ℤ, pos,
}
use ad_manager.Wire.{Bytes, bytes_eq}
use ad_manager.Message.Types.{Message, Codec, IsInt64}
use ad_manager.Message.Runtime.{Runtime, IsRuntime}
use ad_manager.Proto.Types
use ad_manager.Proto.Writable.{IsAdPlayPolicy}
use ad_manager.Proto.AdPlayPolicy
use ad_manager.Proto.AdPlayPolicy.RoundTrip.{parse-serialize_policy}
use ad_manager.Manager.Types.{Manager, Ad, AdPlayPolicy as Policy, Outside}
use ad_manager.Manager.Handler.{Reply, reply_buffer, handle_request}
use ad_manager.Manager.Requests.{
  keep_ad_list, on_ad_list, ad_list_request, for_lock_screen, policy_message, policy_request,
  request_ad_list, request_ad_play_policy, parse_if_ok, refresh_after, on_policy,
}
use ad_manager.Manager.Kept.{answers-add_ads, answers-for_lock_screen, answers-download_ads}
use ad_manager.Manager.Relay.{read_back}
use ad_manager.Manager.Formats.{policy_of, with_parsers}
use ad_manager.Manager.Center.{ReadFrom}

-- The policy, and the answer with it.
abbrev held : Manager → Policy × Bytes
held a = (a.policy, a.buf_policy)

module _ (codec : Codec) where
  held-on_ad_list :
      (o : Outside) (content : Bytes) (ads : Option (List Ad)) (a : Manager)
      → held (on_ad_list codec o content ads a) ≡ held a
  held-on_ad_list o content none a = refl
  held-on_ad_list o content (some ads) a =
      let b = keep_ad_list codec o content ads a in
      ap (λ (t : Policy × Bytes × Bytes). (t.0, t.1))
        (answers-download_ads codec o (for_lock_screen b)
          ∙ answers-for_lock_screen b
          ∙ answers-add_ads o ads _)

  held-request_ad_list : (o : Outside) (a : Manager) → held (request_ad_list codec o a) ≡ held a
  unfolding request_ad_list
  held-request_ad_list o a =
      let rsp = o.peer ad_list_request in
      if_both (λ b. held b ≡ held a) a.is_end_business a _ (λ e. refl)
        (λ e. held-on_ad_list o rsp.content (parse_if_ok o.parse_ads rsp) a)

  held-on_policy :
      (o : Outside) (content : Bytes) (policy : Policy) (a : Manager)
      → held (on_policy codec o content (policy, true) a)
        ≡ (policy, codec.serialize (policy_message content))
  held-on_policy o content policy a = held-request_ad_list o (record a {
    policy = policy;
    timer_policy = some refresh_after;
    buf_policy = codec.serialize (policy_message content);
  })

  module _ (r : Runtime) (laws : IsRuntime r) where
    -- The answer has no error, and is the policy that the generated class writes.
    took_policy :
        (o : Outside) (a : Manager) (p : Types.AdPlayPolicy)
        → IsAdPlayPolicy r p
        → a.is_end_business ≡ false
        → (o.peer (policy_request o a)).return_code ≡ pos 0
        → (o.peer (policy_request o a)).content ≡ AdPlayPolicy.serialize r p
        → held (request_ad_play_policy codec (with_parsers r o) a)
          ≡ (policy_of p, codec.serialize (policy_message (AdPlayPolicy.serialize r p)))
    unfolding request_ad_play_policy with_parsers
    took_policy o a p ok goes_on no_error written =
        let q = with_parsers r o in
        let content = AdPlayPolicy.serialize r p in
        rw (no_error, written)
          (if_both
            (λ (b : Manager). held b ≡ (policy_of p, codec.serialize (policy_message content)))
            a.is_end_business a (on_policy codec q content (q.parse_policy content) a)
            (λ e. absurd (ground arith))
            (λ e.
              rw (parse-serialize_policy r laws p ok) (held-on_policy q content (policy_of p) a)))

    policy_for_clients :
        (o : Outside) (a : Manager) (p : Types.AdPlayPolicy) (i : ℤ) (content : Bytes)
        → IsAdPlayPolicy r p
        → a.is_end_business ≡ false
        → (o.peer (policy_request o a)).return_code ≡ pos 0
        → (o.peer (policy_request o a)).content ≡ AdPlayPolicy.serialize r p
        → handle_request
            (request_ad_play_policy codec (with_parsers r o) a)
            (record (policy_message content) { id = i })
          ≡ reply_buffer i (codec.serialize (policy_message (AdPlayPolicy.serialize r p)))
    unfolding handle_request bytes_eq
    policy_for_clients o a p i content ok goes_on no_error written =
        ap (λ (h : Policy × Bytes). reply_buffer i h.1)
          (took_policy o a p ok goes_on no_error written)

    pub policy_is_read :
        (o : Outside) (a : Manager) (p : Types.AdPlayPolicy) (i : ℤ) (content : Bytes)
        → IsAdPlayPolicy r p
        → a.is_end_business ≡ false
        → (o.peer (policy_request o a)).return_code ≡ pos 0
        → (o.peer (policy_request o a)).content ≡ AdPlayPolicy.serialize r p
        → IsInt64 i
        → codec.Accepts (policy_message (AdPlayPolicy.serialize r p))
        → ReadFrom codec i
            (handle_request
              (request_ad_play_policy codec (with_parsers r o) a)
              (record (policy_message content) { id = i }))
            (record (policy_message (AdPlayPolicy.serialize r p)) { id = i })
    policy_is_read o a p i content ok goes_on no_error written h accepted =
        let m = policy_message (AdPlayPolicy.serialize r p) in
        subst (λ (reply : Reply). ReadFrom codec i reply (record m { id = i }))
          (sym (policy_for_clients o a p i content ok goes_on no_error written))
          (refl, codec.parse-append i m h accepted refl)

    policy_read :
        (i : ℤ) (content : Bytes) (rsp : Message)
        → IsInt64 i
        → codec.Accepts (policy_message content)
        → read_back codec i (codec.serialize (policy_message content)) ≡ some rsp
        → record (policy_message content) { id = i } ≡ rsp
    policy_read i content rsp h ok e = cc (codec.parse-append i (policy_message content) h ok refl)

    -- The policy that the center answers without error goes through the server of the bar: the server
    -- takes it and keeps the answer for its clients, and a client that reads that answer under the
    -- number of its request has that policy: the places and the numbers of the advertisements shown
    -- there. The conditions: the policy is one that the generated class writes and reads back, with
    -- the answer that carries it accepted by the serialiser of the connections, the number of the
    -- request is of 64 bits, and neither business is at its end. The runtime has its documented laws.
    pub policy_arrives :
        (center bar : Outside) (s c : Manager) (p : Types.AdPlayPolicy) (i : ℤ)
        → IsAdPlayPolicy r p
        → (center.peer (policy_request center s)).return_code ≡ pos 0
        → (center.peer (policy_request center s)).content ≡ AdPlayPolicy.serialize r p
        → s.is_end_business ≡ false
        → IsInt64 i
        → codec.Accepts (policy_message (AdPlayPolicy.serialize r p))
        → ReadFrom codec i
            (handle_request
              (request_ad_play_policy codec (with_parsers r center) s)
              (record (policy_request bar c) { id = i }))
            (bar.peer (policy_request bar c))
        → c.is_end_business ≡ false
        → (request_ad_play_policy codec (with_parsers r bar) c).policy ≡ policy_of p
    policy_arrives center bar s c p i ok no_error written s_on i_ok accepted read c_on =
        let asked = policy_request bar c in
        let got =
          subst (λ (reply : Reply). ReadFrom codec i reply (bar.peer asked))
            (policy_for_clients center s p i asked.content ok s_on no_error written) read in
        let rsp = policy_read i (AdPlayPolicy.serialize r p) (bar.peer asked) i_ok accepted got.1 in
        ap (λ (h : Policy × Bytes). h.0)
          (took_policy bar c p ok c_on (ap (λ (x : Message). x.return_code) (sym rsp))
            (ap (λ (x : Message). x.content) (sym rsp)))
