-- ===== src/Manager/Download.antt =====
-- AdManagerImpl::downloadAd and downloadAds: which files are kept in memory, and how they come.
use ad_manager.Base.{
  ℕ, ◌+◌, ◌*◌, ◌%◌, ◌^◌, Bool, true, false, not, ◌||◌, Option, none, some, List, [], ◌∷◌, ◌++◌, ltb,
  ◌==◌, if◌then◌else◌, is_empty, is_zero, find, insert, keep_keys,
}
use ad_manager.Wire.{Bytes, text, bytes_eq, word_bytes}
use ad_manager.Message.Types.{Message, empty, Codec}
use ad_manager.Manager.Types.{
  Manager, Ad, empty_ad, AdPlay, PlayItem, PlayerLink, HttpResponse, Outside,
}

-- Five minutes.
abbrev pub retry_after : ℕ
retry_after = 5 * 60

-- The order of two numbers of 32 bits as signed ones.
unfoldable pub is_below : ℕ → ℕ → Bool
is_below a b = ltb ((a + 2 ^ 31) % 2 ^ 32) ((b + 2 ^ 31) % 2 ^ 32)

-- An ordered set of numbers: std::set<int32>.
unfoldable pub set_insert : ℕ → List ℕ → List ℕ
set_insert a [] = a ∷ []
set_insert a (b ∷ bs) =
    if a == b then b ∷ bs else if is_below a b then a ∷ b ∷ bs else b ∷ set_insert a bs

unfoldable pub contains : ℕ → List ℕ → Bool
contains a [] = false
contains a (b ∷ bs) = b == a || contains a bs

abbrev pub has_key {ℓ} : {V : Type ℓ} → Option V → Bool
has_key none = false
has_key (some v) = true

abbrev pub is_cached : ℕ → Manager → Bool
is_cached id a = has_key (find id a.buf_images)

-- `_mapAd[id]`, which adds an empty advertisement under a number that is not there.
abbrev pub or_empty : Option Ad → Ad
or_empty none = empty_ad
or_empty (some ad) = ad

unfoldable pub touch : ℕ → Manager → Manager
touch id a = record a { map_ad = insert id empty_ad a.map_ad }

abbrev pub ad_at : ℕ → Manager → Ad
ad_at id a = or_empty (find id a.map_ad)

-- CPlayer::UpdatePlayList.
unfoldable pub update_play_list : ℕ → Bytes → List PlayItem → List PlayItem
update_play_list id adfile [] = []
update_play_list id adfile (it ∷ its) =
    (if it.id == id then record it { adfile = some adfile } else it)
    ∷ update_play_list id adfile its

abbrev pub show_file : ℕ → Bytes → Option PlayerLink → Option PlayerLink
show_file id body none = none
show_file id body (some p) =
    some (record p { play_list = update_play_list id body p.play_list; ready = true })

abbrev pub file_message : Bytes → Message
file_message body = record empty { method = text "getAdFile"; content = body }

-- The number is sent as it lies in memory.
abbrev pub file_request : ℕ → Message
file_request id = record empty { method = text "getAdFile"; content = word_bytes id }

-- The client keeps the file, and hands it to the player if it is one for the lock screen.
abbrev pub store_client : ℕ → Bytes → Manager → Manager
store_client id body a = record a {
  buf_images = insert id body a.buf_images;
  player = if contains id a.lock_ads then show_file id body a.player else a.player;
}

-- The numbers of the advertisements with a file, over the lists of the policy.
unfoldable pub collect : List ℕ → List ℕ → Manager → List ℕ × Manager
unfolding touch set_insert
collect [] ids a = (ids, a)
collect (id ∷ more) ids a =
    collect more (if is_empty (ad_at id a).download then ids else set_insert id ids) (touch id a)

unfoldable pub policy_ids : List AdPlay → List ℕ
policy_ids [] = []
policy_ids (p ∷ ps) = p.ad_ids ++ policy_ids ps

unfoldable pub any_missing : List ℕ → Manager → Bool
any_missing [] a = false
any_missing (id ∷ ids) a = not (is_cached id a) || any_missing ids a

abbrev pub arm_download : Bool → Manager → Manager
arm_download true a = record a { timer_download = some retry_after }
arm_download false a = a

abbrev pub drop_stale : List ℕ → Manager → Manager
drop_stale ids a = record a { buf_images = keep_keys (λ id. contains id ids) a.buf_images }

module _ (o : Outside) where
  open o use {to_upper, hex_digest, peer}

  -- The digest that the advertisement names, up to the case of its letters.
  abbrev pub digest_matches : Ad → Bytes → Bool
  digest_matches ad body = bytes_eq (to_upper ad.md5) (to_upper (hex_digest body))

  -- What an attempt brings, if it brings the right file.
  abbrev pub accept : Ad → Option HttpResponse → Option Bytes
  accept ad none = none
  accept ad (some response) =
      if response.status == 200
      then (if digest_matches ad response.body then some response.body else none)
      else none

  unfoldable pub download_from_server : ℕ → Ad → Manager → Manager
  download_from_server id ad a =
      let rsp = peer (file_request id) in
      if is_zero rsp.return_code
      then (if digest_matches ad rsp.content then store_client id rsp.content a else a)
      else a

module _ (codec : Codec) (o : Outside) where
  open codec use {serialize}
  open o use {http_get}

  -- The server keeps the whole answer to a later request, and writes the file.
  abbrev pub store_server : ℕ → Ad → Bytes → Manager → Manager
  store_server id ad body a = record a {
    buf_images = insert id (serialize (file_message body)) a.buf_images;
    disk = (ad.filename, body ++ (10 ∷ [])) ∷ a.disk;
  }

  abbrev pub store_or : ℕ → Ad → Manager → Option Bytes → Manager → Manager
  store_or id ad a none next = next
  store_or id ad a (some body) next = store_server id ad body a

  -- The addresses are tried in turn, until one gives the right file.
  unfoldable pub try_urls : ℕ → Ad → ℕ → List Bytes → Manager → Manager
  try_urls id ad n [] a = a
  try_urls id ad n (url ∷ urls) a =
      store_or id ad a (accept o ad (http_get id n url)) (try_urls id ad (n + 1) urls a)

  abbrev pub download_known : ℕ → Ad → Manager → Manager
  download_known id ad a =
      if is_empty ad.download
      then a
      else if a.is_bar_server
      then try_urls id ad 0 ad.download a
      else download_from_server o id ad a

  abbrev pub download_found : ℕ → Option Ad → Manager → Manager
  download_found id none a = a
  download_found id (some ad) a = download_known id ad a

  unfoldable pub download_ad : ℕ → Manager → Manager
  unfolding try_urls download_from_server
  download_ad id a = download_found id (find id a.map_ad) a

  unfoldable pub fetch_all : List ℕ → Manager → Manager
  unfolding download_ad
  fetch_all [] a = a
  fetch_all (id ∷ ids) a = fetch_all ids (if is_cached id a then a else download_ad id a)

  unfoldable pub download_needed : List ℕ → Manager → Manager
  unfolding contains fetch_all any_missing
  download_needed ids a =
      let b = fetch_all ids (drop_stale ids a) in arm_download (any_missing ids b) b

  unfoldable pub download_ads : Manager → Manager
  unfolding collect policy_ids download_needed
  download_ads a =
      if a.is_end_business
      then a
      else let (ids, b) = collect (policy_ids a.policy) [] a in download_needed ids b
