-- ===== src/Manager/Center.antt =====
-- From the center through the server of the bar to its clients: the list of advertisements and the
-- policy, as the generated classes write and read them (AdManager.cpp, ad/AdPlayPolicy.pb.cc).
use ad_manager.Base.{
  ◌≡◌, refl, sym, ap, ◌∙◌, subst, ◌≢◌, false, none, some, List, [], ◌∷◌, ◌++◌, map, map-append,
  arith, All, ℤ, pos, find, find-insert,
}
use ad_manager.Wire.{Bytes, bytes_eq}
use ad_manager.Message.Types.{Message, Codec, IsInt64}
use ad_manager.Message.Runtime.{Runtime, IsRuntime}
use ad_manager.Proto.Types
use ad_manager.Proto.Writable.{IsResult}
use ad_manager.Proto.Result
use ad_manager.Proto.Result.RoundTrip.{parse-serialize_result}
use ad_manager.Manager.Types.{Manager, Ad, AdPlayPolicy, Outside}
use ad_manager.Manager.Handler.{Reply, reply_buffer, reply_msg, no_reply, fault, handle_request}
use ad_manager.Manager.Requests.{
  add_ads, add_ad, utf8_to_gb2312, for_lock_screen, keep_ad_list, on_ad_list, ad_list_message,
  ad_list_request, request_ad_list,
}
use ad_manager.Manager.Known.{add_ads-Keeps, for_lock_screen-Keeps, download_ads-Keeps}
use ad_manager.Manager.Kept.{answers-add_ads, answers-for_lock_screen, answers-download_ads}
use ad_manager.Manager.Relay.{read_back}
use ad_manager.Manager.Formats.{to_u32, ad_of, with_parsers}

-- The client reads that message from the answer to its request with that number.
abbrev pub ReadFrom : Codec → ℤ → Reply → Message → Type 0
ReadFrom codec i (reply_buffer j buf) rsp = (j ≡ i) × (read_back codec i buf ≡ some rsp)
ReadFrom codec i (reply_msg msg) rsp = codec.parse (codec.serialize msg) ≡ some rsp
ReadFrom codec i no_reply rsp = ⊥
ReadFrom codec i fault rsp = ⊥

module _ (codec : Codec) where
  add_ads-find :
      (o : Outside) (before after : List Ad) (ad : Ad) (a : Manager)
      → All (λ x. x.id ≢ ad.id) before
      → find ad.id a.map_ad ≡ none
      → find ad.id (add_ads o (before ++ (ad ∷ after)) a).map_ad ≡ some (utf8_to_gb2312 o ad)
  unfolding add_ads
  add_ads-find o [] after ad a others new =
      (add_ads-Keeps codec o after (add_ad o ad a)).keeps ad.id (utf8_to_gb2312 o ad)
        (ground (arith, find-insert ad.id ad.id (utf8_to_gb2312 o ad) a.map_ad))
  add_ads-find o (x ∷ before) after ad a (other, others) new =
      add_ads-find o before after ad (add_ad o x a) others
        (ground (arith, find-insert x.id ad.id (utf8_to_gb2312 o x) a.map_ad))

  on_ad_list-find :
      (o : Outside) (content : Bytes) (before after : List Ad) (ad : Ad) (a : Manager)
      → All (λ x. x.id ≢ ad.id) before
      → find ad.id a.map_ad ≡ none
      → find ad.id (on_ad_list codec o content (some (before ++ (ad ∷ after))) a).map_ad
        ≡ some (utf8_to_gb2312 o ad)
  on_ad_list-find o content before after ad a others new =
      let b = keep_ad_list codec o content (before ++ (ad ∷ after)) a in
      (download_ads-Keeps codec o (for_lock_screen b)).keeps ad.id _ (
        (for_lock_screen-Keeps codec o b).keeps ad.id _
          (add_ads-find o before after ad _ others new))

  on_ad_list-buf :
      (o : Outside) (content : Bytes) (ads : List Ad) (a : Manager)
      → (on_ad_list codec o content (some ads) a).buf_ad_list
        ≡ codec.serialize (ad_list_message content)
  on_ad_list-buf o content ads a =
      let b = keep_ad_list codec o content ads a in
      ap (λ (t : AdPlayPolicy × Bytes × Bytes). t.2)
        (answers-download_ads codec o (for_lock_screen b)
          ∙ answers-for_lock_screen b
          ∙ answers-add_ads o ads _)

  module _ (r : Runtime) (laws : IsRuntime r) where
    -- The answer has no error, and is the list that the generated class writes.
    took_list :
        (o : Outside) (a : Manager) (m : Types.Result)
        → IsResult r m
        → a.is_end_business ≡ false
        → (o.peer ad_list_request).return_code ≡ pos 0
        → (o.peer ad_list_request).content ≡ Result.serialize r m
        → request_ad_list codec (with_parsers r o) a
          ≡ on_ad_list codec (with_parsers r o) (Result.serialize r m) (some (map ad_of m.ads)) a
    unfolding request_ad_list with_parsers
    took_list o a m ok goes_on no_error written =
        rw (goes_on, no_error, written) (rw (parse-serialize_result r laws m ok) refl)

    list_for_clients :
        (o : Outside) (a : Manager) (m : Types.Result) (i : ℤ)
        → IsResult r m
        → a.is_end_business ≡ false
        → (o.peer ad_list_request).return_code ≡ pos 0
        → (o.peer ad_list_request).content ≡ Result.serialize r m
        → handle_request
            (request_ad_list codec (with_parsers r o) a)
            (record ad_list_request { id = i })
          ≡ reply_buffer i (codec.serialize (ad_list_message (Result.serialize r m)))
    unfolding handle_request bytes_eq
    list_for_clients o a m i ok goes_on no_error written = ap (reply_buffer i) (
        ap (λ (b : Manager). b.buf_ad_list) (took_list o a m ok goes_on no_error written)
        ∙ on_ad_list-buf (with_parsers r o) (Result.serialize r m) (map ad_of m.ads) a)

    pub list_is_read :
        (o : Outside) (a : Manager) (m : Types.Result) (i : ℤ)
        → IsResult r m
        → a.is_end_business ≡ false
        → (o.peer ad_list_request).return_code ≡ pos 0
        → (o.peer ad_list_request).content ≡ Result.serialize r m
        → IsInt64 i
        → codec.Accepts (ad_list_message (Result.serialize r m))
        → ReadFrom codec i
            (handle_request
              (request_ad_list codec (with_parsers r o) a)
              (record ad_list_request { id = i }))
            (record (ad_list_message (Result.serialize r m)) { id = i })
    list_is_read o a m i ok goes_on no_error written h accepted =
        let content = Result.serialize r m in
        subst
          (λ (reply : Reply). ReadFrom codec i reply (record (ad_list_message content) { id = i }))
          (sym (list_for_clients o a m i ok goes_on no_error written))
          (refl, codec.parse-append i (ad_list_message content) h accepted refl)

    list_read :
        (i : ℤ) (content : Bytes) (rsp : Message)
        → IsInt64 i
        → codec.Accepts (ad_list_message content)
        → read_back codec i (codec.serialize (ad_list_message content)) ≡ some rsp
        → record (ad_list_message content) { id = i } ≡ rsp
    list_read i content rsp h ok e = cc (codec.parse-append i (ad_list_message content) h ok refl)

    -- The list that the center answers without error goes through the server of the bar: the server
    -- takes it and keeps the answer for its clients, and when a client has read that answer under the
    -- number of its request, it knows each advertisement of the list, with its texts converted. The
    -- conditions: the list is one that the generated class writes and reads back, with the answer that
    -- carries it accepted by the serialiser of the connections, the number of the request is of 64
    -- bits, neither business is at its end, and the advertisement is the first with its number, which
    -- the client did not know. The runtime has its documented laws.
    pub ad_list_arrives :
        (center bar : Outside) (s c : Manager) (m : Types.Result) (before after : List Types.Ad)
        (ad : Types.Ad) (i : ℤ)
        → IsResult r m
        → m.ads ≡ before ++ (ad ∷ after)
        → (center.peer ad_list_request).return_code ≡ pos 0
        → (center.peer ad_list_request).content ≡ Result.serialize r m
        → s.is_end_business ≡ false
        → IsInt64 i
        → codec.Accepts (ad_list_message (Result.serialize r m))
        → ReadFrom codec i
            (handle_request
              (request_ad_list codec (with_parsers r center) s)
              (record ad_list_request { id = i }))
            (bar.peer ad_list_request)
        → c.is_end_business ≡ false
        → All (λ x. to_u32 x.id ≢ to_u32 ad.id) before
        → find (to_u32 ad.id) c.map_ad ≡ none
        → find (to_u32 ad.id) (request_ad_list codec (with_parsers r bar) c).map_ad
          ≡ some (utf8_to_gb2312 bar (ad_of ad))
    unfolding with_parsers utf8_to_gb2312
    ad_list_arrives center bar s c m before after ad i ok parts no_error written s_on i_ok accepted
          read c_on others new =
        let got =
          subst (λ (reply : Reply). ReadFrom codec i reply (bar.peer ad_list_request))
            (list_for_clients center s m i ok s_on no_error written) read in
        let rsp =
          list_read i (Result.serialize r m) (bar.peer ad_list_request) i_ok accepted got.1 in
        let took =
          took_list bar c m ok c_on (ap (λ (x : Message). x.return_code) (sym rsp))
            (ap (λ (x : Message). x.content) (sym rsp)) in
        let same : map ad_of m.ads ≡ map ad_of before ++ (ad_of ad ∷ map ad_of after) =
          ap (map ad_of) parts ∙ map-append ad_of before (ad ∷ after) in
        let o = with_parsers r bar in
        ap (λ (b : Manager). find (to_u32 ad.id) b.map_ad) took
        ∙ ap
            (λ ads.
              find (to_u32 ad.id) (on_ad_list codec o (Result.serialize r m) (some ads) c).map_ad)
            same
        ∙ on_ad_list-find o (Result.serialize r m) (map ad_of before) (map ad_of after) (ad_of ad) c
            (All-under before others) new
      where
        All-under :
            (xs : List Types.Ad)
            → All (λ x. to_u32 x.id ≢ to_u32 ad.id) xs
            → All (λ x. x.id ≢ to_u32 ad.id) (map ad_of xs)
        All-under [] h = tt
        All-under (x ∷ xs) (one, more) = (one, All-under xs more)
