-- ===== src/Manager/Requests.antt =====
-- AdManagerImpl::requestAd, requestAdList and requestAdPlayPolicy, and the refresh that they make up.
use ad_manager.Base.{
  ℕ, ◌*◌, Bool, true, false, Option, none, some, List, [], ◌∷◌, ◌++◌, map, ◌==◌, if◌then◌else◌,
  is_zero, insert,
}
use ad_manager.Wire.{Bytes, text, head_bytes}
use ad_manager.Message.Types.{Message, empty, Codec}
use ad_manager.Manager.Types.{Manager, Ad, AdPlay, AdPlayPolicy, PlayItem, PlayerLink, Outside}
use ad_manager.Manager.Download.{retry_after, set_insert, touch, ad_at, download_ads}

-- Six hours.
abbrev pub refresh_after : ℕ
refresh_after = 6 * 60 * 60

-- The position of advertisements for the lock screen.
abbrev pub lock_screen : ℕ
lock_screen = 1

abbrev pub push_item : PlayItem → Option PlayerLink → Option PlayerLink
push_item it none = none
push_item it (some p) = some (record p { play_list = p.play_list ++ (it ∷ []) })

abbrev pub item_of : ℕ → Ad → PlayItem
item_of id ad = record { id = id; type = ad.type; filename = ad.filename; adfile = none }

-- One advertisement for the lock screen is put into the set and the play list.
unfoldable pub add_lock_ad : ℕ → Manager → Manager
unfolding touch set_insert
add_lock_ad id a =
    let b = touch id a in
    record b {
      lock_ads = set_insert id b.lock_ads;
      player = push_item (item_of id (ad_at id a)) b.player;
    }

unfoldable pub add_lock_ads : List ℕ → Manager → Manager
unfolding add_lock_ad
add_lock_ads [] a = a
add_lock_ads (id ∷ ids) a = add_lock_ads ids (add_lock_ad id a)

unfoldable pub lock_ids : List AdPlay → List ℕ
lock_ids [] = []
lock_ids (p ∷ ps) = if p.location == lock_screen then p.ad_ids ++ lock_ids ps else lock_ids ps

abbrev pub parse_if_ok {ℓ} : {A : Type ℓ} → (Bytes → Option A) → Message → Option A
parse_if_ok parse rsp = if is_zero rsp.return_code then parse rsp.content else none

abbrev pub ad_request : ℕ → Message
ad_request id = record empty { method = text "getAd"; content = head_bytes id }

abbrev pub ad_list_message : Bytes → Message
ad_list_message content = record empty { method = text "getAdList"; content = content }

abbrev pub policy_message : Bytes → Message
policy_message content = record empty { method = text "getAdPlayPolicy"; content = content }

abbrev pub ad_list_request : Message
ad_list_request = record empty { method = text "getAdList" }

abbrev pub for_lock_screen : Manager → Manager
for_lock_screen a = if a.is_bar_server then a else add_lock_ads (lock_ids a.policy) a

-- A name of the bar that is no number counts as 0.
abbrev pub bar_number : Option ℕ → ℕ
bar_number none = 0
bar_number (some n) = n

module _ (o : Outside) where
  open o use {parse_ad, to_gb2312, to_int, peer}

  -- utf8ToGB2312 of an advertisement.
  unfoldable pub utf8_to_gb2312 : Ad → Ad
  utf8_to_gb2312 ad = record ad {
    name = to_gb2312 ad.name;
    filename = to_gb2312 ad.filename;
    advertiser = to_gb2312 ad.advertiser;
    download = map to_gb2312 ad.download;
  }

  -- `_mapAd.insert` leaves the entry that a number has.
  abbrev pub add_ad : Ad → Manager → Manager
  add_ad ad a = record a { map_ad = insert ad.id (utf8_to_gb2312 ad) a.map_ad }

  unfoldable pub add_ads : List Ad → Manager → Manager
  unfolding utf8_to_gb2312
  add_ads [] a = a
  add_ads (ad ∷ ads) a = add_ads ads (add_ad ad a)

  abbrev pub on_ad_answer : Option Ad → Manager → Manager × Bool
  on_ad_answer none a = (a, false)
  on_ad_answer (some ad) a = (add_ad ad a, true)

  unfoldable pub request_ad : ℕ → Manager → Manager × Bool
  unfolding utf8_to_gb2312
  request_ad id a = on_ad_answer (parse_if_ok parse_ad (peer (ad_request id))) a

  abbrev pub policy_request : Manager → Message
  policy_request a = record empty {
    method = text "getAdPlayPolicy";
    content = head_bytes (bar_number (to_int a.bar_id));
  }

module _ (codec : Codec) (o : Outside) where
  open codec use {serialize}
  open o use {parse_ads, parse_policy, peer}

  abbrev pub keep_ad_list : Bytes → List Ad → Manager → Manager
  keep_ad_list content ads a =
      add_ads o ads (record a { buf_ad_list = serialize (ad_list_message content) })

  abbrev pub on_ad_list : Bytes → Option (List Ad) → Manager → Manager
  on_ad_list content none a = record a { timer_ad_list = some retry_after }
  on_ad_list content (some ads) a =
      download_ads codec o (for_lock_screen (keep_ad_list content ads a))

  unfoldable pub request_ad_list : Manager → Manager
  unfolding add_ads add_lock_ads lock_ids download_ads
  request_ad_list a =
      let rsp = peer ad_list_request in
      if a.is_end_business then a else on_ad_list rsp.content (parse_if_ok parse_ads rsp) a

  abbrev pub on_policy : Bytes → AdPlayPolicy × Bool → Manager → Manager
  on_policy content (policy, true) a = request_ad_list (record a {
    policy = policy;
    timer_policy = some refresh_after;
    buf_policy = serialize (policy_message content);
  })
  on_policy content (policy, false) a = record a {
    policy = policy;
    timer_policy = some retry_after;
  }

  unfoldable pub request_ad_play_policy : Manager → Manager
  unfolding request_ad_list
  request_ad_play_policy a =
      let rsp = peer (policy_request o a) in
      if a.is_end_business
      then a
      else if is_zero rsp.return_code
      then on_policy rsp.content (parse_policy rsp.content) a
      else record a { timer_policy = some retry_after }
