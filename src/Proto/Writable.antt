-- ===== src/Proto/Writable.antt =====
-- What the program writes of the messages of ad/AdPlayPolicy.proto.
use ad_manager.Base.{◌^◌, ◌<◌, length, All}
use ad_manager.Message.Types.{IsInt32}
use ad_manager.Message.Runtime.{Runtime}
use ad_manager.Proto.Types.{PlayTime, AdPlay, AdPlayPolicy, Ad, Result}
use ad_manager.Proto.Fields.{int32s}
use ad_manager.Proto.Kinds.{IsText}
use ad_manager.Proto.PlayTime
use ad_manager.Proto.AdPlay
use ad_manager.Proto.Ad

module _ (r : Runtime) where
  -- Texts that are UTF-8, numbers in their range, and no block of 2^31 bytes or more.
  pub record IsPlayTime (m : PlayTime) : Type 0 where
    pub bgn_time_text : IsText r m.bgn_time
    pub end_time_text : IsText r m.end_time

  pub record IsAdPlay (m : AdPlay) : Type 0 where
    pub location_range : IsInt32 m.location
    pub mode_range : IsInt32 m.mode
    pub play_times_fit :
        All (λ v. IsPlayTime v × (length (PlayTime.serialize r v) < 2 ^ 31)) m.play_times
    pub ad_ids_range : All IsInt32 m.ad_ids
    pub ad_ids_size : length (int32s r m.ad_ids) < 2 ^ 31

  pub record IsAdPlayPolicy (m : AdPlayPolicy) : Type 0 where
    pub id_range : IsInt32 m.id
    pub version_text : IsText r m.version
    pub date_time_text : IsText r m.date_time
    pub ad_plays_fit : All (λ v. IsAdPlay v × (length (AdPlay.serialize r v) < 2 ^ 31)) m.ad_plays

  pub record IsAd (m : Ad) : Type 0 where
    pub id_range : IsInt32 m.id
    pub name_text : IsText r m.name
    pub file_name_text : IsText r m.file_name
    pub advertiser_text : IsText r m.advertiser
    pub type_range : IsInt32 m.type
    pub url_text : IsText r m.url
    pub image_size : length m.image < 2 ^ 31
    pub width_range : IsInt32 m.width
    pub height_range : IsInt32 m.height
    pub format_text : IsText r m.format
    pub size_range : IsInt32 m.size
    pub md5_text : IsText r m.md5
    pub duration_range : IsInt32 m.duration
    pub download_texts : All (IsText r) m.download
    pub min_age_range : IsInt32 m.min_age
    pub max_age_range : IsInt32 m.max_age
    pub sex_range : IsInt32 m.sex
    pub visit_stat_code_texts : All (IsText r) m.visit_stat_code
    pub pause_pop_ad_ids_range : All IsInt32 m.pause_pop_ad_ids
    pub pause_pop_ad_ids_size : length (int32s r m.pause_pop_ad_ids) < 2 ^ 31
    pub unlock_pop_ad_ids_range : All IsInt32 m.unlock_pop_ad_ids
    pub unlock_pop_ad_ids_size : length (int32s r m.unlock_pop_ad_ids) < 2 ^ 31

  pub record IsResult (m : Result) : Type 0 where
    pub ads_fit : All (λ v. IsAd v × (length (Ad.serialize r v) < 2 ^ 31)) m.ads
