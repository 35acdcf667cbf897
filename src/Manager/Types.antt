-- ===== src/Manager/Types.antt =====
-- AdManagerImpl.h and ad/AdPlayPolicy.proto: the state of the manager and the data that it keeps.
use ad_manager.Base.{ℕ, Bool, Option, List, []}
use ad_manager.Wire.{Bytes}
use ad_manager.Message.Types.{Message}

-- The fields of an advertisement that the program reads.
pub record Ad : Type 0 where
  pub id : ℕ
  pub name : Bytes
  pub filename : Bytes
  pub advertiser : Bytes
  pub type : ℕ
  pub image : Bytes
  pub md5 : Bytes
  pub download : List Bytes

abbrev pub empty_ad : Ad
empty_ad = record {
  id = 0;
  name = [];
  filename = [];
  advertiser = [];
  type = 0;
  image = [];
  md5 = [];
  download = [];
}

pub record AdPlay : Type 0 where
  pub location : ℕ
  pub ad_ids : List ℕ

abbrev pub AdPlayPolicy : Type 0
AdPlayPolicy = List AdPlay

-- PlayItem of player.h.
pub record PlayItem : Type 0 where
  pub id : ℕ
  pub type : ℕ
  pub filename : Bytes
  pub adfile : Option Bytes

-- What a client does with the player that it has.
pub record PlayerLink : Type 0 where
  pub play_list : List PlayItem
  pub ready : Bool

-- The maps are keyed by the number of an advertisement. A timer holds the seconds after which its
-- function runs. `disk` lists the files that were written, newest first.
pub record Manager : Type 0 where
  pub bar_id : Bytes
  pub is_bar_server : Bool
  pub listen_port : ℕ
  pub is_end_business : Bool
  pub timer_policy : Option ℕ
  pub timer_ad_list : Option ℕ
  pub timer_download : Option ℕ
  pub policy : AdPlayPolicy
  pub map_ad : List (ℕ × Ad)
  pub lock_ads : List ℕ
  pub buf_policy : Bytes
  pub buf_ad_list : Bytes
  pub buf_images : List (ℕ × Bytes)
  pub player : Option PlayerLink
  pub disk : List (Bytes × Bytes)

pub record HttpResponse : Type 0 where
  pub status : ℕ
  pub body : Bytes

-- What the manager calls that is not its own: the parsers of ad/AdPlayPolicy.pb.cc, which Formats
-- gives (the policy's parser leaves what it has read in the object even when it fails), boost's conversion of
-- text and its case mapping, lexical_cast, the digest of a file, and the two ways to the network.
-- `peer` gives the response to a request, and `http_get` what the n-th attempt to download an
-- advertisement from an address gives, `none` for an exception.
pub record Outside : Type 0 where
  pub parse_ad : Bytes → Option Ad
  pub parse_ads : Bytes → Option (List Ad)
  pub parse_policy : Bytes → AdPlayPolicy × Bool
  pub to_gb2312 : Bytes → Bytes
  pub to_upper : Bytes → Bytes
  pub to_int : Bytes → Option ℕ
  pub hex_digest : Bytes → Bytes
  pub peer : Message → Message
  pub http_get : ℕ → ℕ → Bytes → Option HttpResponse
