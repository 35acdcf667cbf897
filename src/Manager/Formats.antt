-- ===== src/Manager/Formats.antt =====
-- The manager with the generated parsers of ad/AdPlayPolicy.pb.cc: what AdManager.cpp reads of their
-- messages. A number is known by the word that it is.
use ad_manager.Base.{
  ℕ, suc, ◌-◌, ◌^◌, Bool, true, false, Option, none, some, List, map, ℤ, pos, negsuc,
}
use ad_manager.Message.Runtime.{Runtime}
use ad_manager.Proto.Types
use ad_manager.Proto.Ad
use ad_manager.Proto.Result
use ad_manager.Proto.AdPlayPolicy
use ad_manager.Manager.Types.{Ad, AdPlay, AdPlayPolicy, Outside}

-- (uint32_t) x of an int32_t x.
abbrev pub to_u32 : ℤ → ℕ
to_u32 (pos n) = n
to_u32 (negsuc n) = 2 ^ 32 - suc n

abbrev pub ad_of : Types.Ad → Ad
ad_of ad = record {
  id = to_u32 ad.id;
  name = ad.name;
  filename = ad.file_name;
  advertiser = ad.advertiser;
  type = to_u32 ad.type;
  image = ad.image;
  md5 = ad.md5;
  download = ad.download;
}

abbrev pub ad_play_of : Types.AdPlay → AdPlay
ad_play_of p = record { location = to_u32 p.location; ad_ids = map to_u32 p.ad_ids }

abbrev pub policy_of : Types.AdPlayPolicy → AdPlayPolicy
policy_of p = map ad_play_of p.ad_plays

abbrev pub parsed_ad : Option Types.Ad → Option Ad
parsed_ad none = none
parsed_ad (some ad) = some (ad_of ad)

abbrev pub parsed_ads : Option Types.Result → Option (List Ad)
parsed_ads none = none
parsed_ads (some result) = some (map ad_of result.ads)

-- What a failed parse leaves in `_policy` is not known.
abbrev pub parsed_policy : AdPlayPolicy → Option Types.AdPlayPolicy → AdPlayPolicy × Bool
parsed_policy left none = (left, false)
parsed_policy left (some p) = (policy_of p, true)

module _ (r : Runtime) where
  unfoldable pub with_parsers : Outside → Outside
  with_parsers o = record o {
    parse_ad = λ b. parsed_ad (Ad.parse r b);
    parse_ads = λ b. parsed_ads (Result.parse r b);
    parse_policy = λ b. parsed_policy (o.parse_policy b).0 (AdPlayPolicy.parse r b);
  }
