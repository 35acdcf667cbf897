-- ===== src/Proto/Types.antt =====
-- The messages of ad/AdPlayPolicy.proto (ad/AdPlayPolicy.pb.h).
use ad_manager.Base.{Bool, List, ℤ}
use ad_manager.Wire.{Bytes}

pub record PlayTime : Type 0 where
  pub bgn_time : Bytes
  pub end_time : Bytes

pub record AdPlay : Type 0 where
  pub location : ℤ
  pub mode : ℤ
  pub need_sync : Bool
  pub play_times : List PlayTime
  pub ad_ids : List ℤ

pub record AdPlayPolicy : Type 0 where
  pub id : ℤ
  pub version : Bytes
  pub date_time : Bytes
  pub ad_plays : List AdPlay

pub record Ad : Type 0 where
  pub id : ℤ
  pub name : Bytes
  pub file_name : Bytes
  pub advertiser : Bytes
  pub type : ℤ
  pub url : Bytes
  pub image : Bytes
  pub width : ℤ
  pub height : ℤ
  pub format : Bytes
  pub size : ℤ
  pub md5 : Bytes
  pub duration : ℤ
  pub download : List Bytes
  pub min_age : ℤ
  pub max_age : ℤ
  pub sex : ℤ
  pub visit_stat_code : List Bytes
  pub pause_pop_ad_ids : List ℤ
  pub unlock_pop_ad_ids : List ℤ

pub record Result : Type 0 where
  pub ads : List Ad
