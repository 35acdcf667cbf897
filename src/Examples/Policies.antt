-- ===== src/Examples/Policies.antt =====
-- A policy and a list of advertisements on which the theorems are tried.
use ad_manager.Base.{◌≡◌, refl, true, [], ◌∷◌, arith, length, pos, negsuc, to_u64}
use ad_manager.Wire.{text}
use ad_manager.Proto.Types.{PlayTime, AdPlay, AdPlayPolicy, Ad, Result}
use ad_manager.Proto.Writable.{IsPlayTime, IsAdPlay, IsAdPlayPolicy, IsAd, IsResult}
use ad_manager.Proto.PlayTime
use ad_manager.Proto.AdPlay
use ad_manager.Proto.AdPlayPolicy
use ad_manager.Proto.Ad
use ad_manager.Proto.Result
use ad_manager.Examples.Varint.{runtime, all_ascii, varint, varint_fuel}

abbrev morning : PlayTime
morning = record { bgn_time = text "08:00"; end_time = text "12:00" }

-- The second place shows the advertisements 7 and -1 in the morning.
abbrev second : AdPlay
second = record {
  location = pos 2;
  mode = pos 0;
  need_sync = true;
  play_times = morning ∷ [];
  ad_ids = pos 7 ∷ negsuc 0 ∷ [];
}

abbrev pub policy : AdPlayPolicy
policy = record { id = pos 300; version = text "1.2"; date_time = []; ad_plays = second ∷ [] }

morning-IsPlayTime : IsPlayTime runtime morning
unfolding runtime all_ascii
morning-IsPlayTime = record {
  bgn_time_text = (refl, omega arith);
  end_time_text = (refl, omega arith);
}

morning-size : length (PlayTime.serialize runtime morning) ≡ 14
unfolding PlayTime.serialize runtime varint varint_fuel
morning-size = refl

second-IsAdPlay : IsAdPlay runtime second
unfolding runtime varint varint_fuel
second-IsAdPlay = record {
  location_range = omega arith;
  mode_range = omega arith;
  play_times_fit = ((morning-IsPlayTime, omega (arith, morning-size)), tt);
  ad_ids_range = (omega arith, (omega arith, tt));
  ad_ids_size = omega arith;
}

second-size : length (AdPlay.serialize runtime second) ≡ 33
unfolding AdPlay.serialize PlayTime.serialize runtime varint varint_fuel to_u64
second-size = refl

pub policy-IsAdPlayPolicy : IsAdPlayPolicy runtime policy
unfolding runtime all_ascii
policy-IsAdPlayPolicy = record {
  id_range = omega arith;
  version_text = (refl, omega arith);
  date_time_text = (refl, omega arith);
  ad_plays_fit = ((second-IsAdPlay, omega (arith, second-size)), tt);
}

abbrev pub film : Ad
film = record Ad.clear {
  id = pos 7;
  name = text "Film";
  file_name = text "film.wmv";
  type = pos 1;
  md5 = text "0a";
  download = text "http://a" ∷ text "http://b" ∷ [];
  max_age = pos 60;
  unlock_pop_ad_ids = pos 8 ∷ pos 300 ∷ [];
}

abbrev pub picture : Ad
picture = record Ad.clear { id = pos 8; type = pos 4; image = 255 ∷ 216 ∷ []; sex = pos 2 }

pub film-IsAd : IsAd runtime film
unfolding runtime all_ascii varint varint_fuel
film-IsAd = record {
  id_range = omega arith;
  name_text = (refl, omega arith);
  file_name_text = (refl, omega arith);
  advertiser_text = (refl, omega arith);
  type_range = omega arith;
  url_text = (refl, omega arith);
  image_size = omega arith;
  width_range = omega arith;
  height_range = omega arith;
  format_text = (refl, omega arith);
  size_range = omega arith;
  md5_text = (refl, omega arith);
  duration_range = omega arith;
  download_texts = ((refl, omega arith), ((refl, omega arith), tt));
  min_age_range = omega arith;
  max_age_range = omega arith;
  sex_range = omega arith;
  visit_stat_code_texts = tt;
  pause_pop_ad_ids_range = tt;
  pause_pop_ad_ids_size = omega arith;
  unlock_pop_ad_ids_range = (omega arith, (omega arith, tt));
  unlock_pop_ad_ids_size = omega arith;
}

pub picture-IsAd : IsAd runtime picture
unfolding runtime all_ascii
picture-IsAd = record {
  id_range = omega arith;
  name_text = (refl, omega arith);
  file_name_text = (refl, omega arith);
  advertiser_text = (refl, omega arith);
  type_range = omega arith;
  url_text = (refl, omega arith);
  image_size = omega arith;
  width_range = omega arith;
  height_range = omega arith;
  format_text = (refl, omega arith);
  size_range = omega arith;
  md5_text = (refl, omega arith);
  duration_range = omega arith;
  download_texts = tt;
  min_age_range = omega arith;
  max_age_range = omega arith;
  sex_range = omega arith;
  visit_stat_code_texts = tt;
  pause_pop_ad_ids_range = tt;
  pause_pop_ad_ids_size = omega arith;
  unlock_pop_ad_ids_range = tt;
  unlock_pop_ad_ids_size = omega arith;
}

abbrev pub result : Result
result = record { ads = film ∷ picture ∷ [] }

film-size : length (Ad.serialize runtime film) ≡ 53
unfolding Ad.serialize runtime varint varint_fuel to_u64
film-size = refl

picture-size : length (Ad.serialize runtime picture) ≡ 11
unfolding Ad.serialize runtime varint varint_fuel to_u64
picture-size = refl

pub result-IsResult : IsResult runtime result
result-IsResult = record {
  ads_fit =
      ((film-IsAd, omega (arith, film-size)), ((picture-IsAd, omega (arith, picture-size)), tt));
}

pub list-size : length (Result.serialize runtime result) ≡ 68
unfolding Result.serialize Ad.serialize runtime varint varint_fuel to_u64
list-size = refl

pub policy-size : length (AdPlayPolicy.serialize runtime policy) ≡ 43
unfolding AdPlayPolicy.serialize AdPlay.serialize PlayTime.serialize runtime varint varint_fuel
    to_u64
policy-size = refl
