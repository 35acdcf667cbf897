-- ===== src/Proto/Ad/RoundTrip.antt =====
-- What the class Ad of ad/AdPlayPolicy.pb.cc writes, it reads back.
use ad_manager.Base.{◌≡◌, refl, ap, ◌∙◌, some, ◌++◌, arith}
use ad_manager.Wire.{Bytes}
use ad_manager.Message.Runtime.{Runtime, IsRuntime}
use ad_manager.Message.Laws.{absent_number, absent_bytes}
use ad_manager.Proto.Types.{Ad}
use ad_manager.Proto.Loop.{untaken}
use ad_manager.Proto.Reads.{Reads, ◌then◌, Reads-parse}
use ad_manager.Proto.Kinds.{Reads-int32, Reads-text, Reads-packed, Reads-bytes, Reads-texts}
use ad_manager.Proto.Writable.{IsAd}
use ad_manager.Proto.AdFields
use ad_manager.Proto.Ad

module _ (r : Runtime) (laws : IsRuntime r) where
  merges : (a m : Ad) → IsAd r m → Reads r (Ad.switch r) a (Ad.serialize r m) (Ad.merge_from a m)
  unfolding Ad.switch Ad.serialize Ad.merge_from
  merges a m ok =
      Reads-int32 r laws (Ad.switch r) 8 (omega arith) (omega arith) AdFields.id_lens m.id a
        (λ n b. refl) ok.id_range
      then Reads-text r laws (Ad.switch r) 18 (omega arith) (omega arith) AdFields.name_lens m.name
          _ (λ n b. refl) ok.name_text
      then Reads-text r laws (Ad.switch r) 26 (omega arith) (omega arith) AdFields.file_name_lens
          m.file_name _ (λ n b. refl) ok.file_name_text
      then Reads-text r laws (Ad.switch r) 34 (omega arith) (omega arith) AdFields.advertiser_lens
          m.advertiser _ (λ n b. refl) ok.advertiser_text
      then Reads-int32 r laws (Ad.switch r) 40 (omega arith) (omega arith) AdFields.type_lens m.type
          _ (λ n b. refl) ok.type_range
      then Reads-text r laws (Ad.switch r) 50 (omega arith) (omega arith) AdFields.url_lens m.url _
          (λ n b. refl) ok.url_text
      then Reads-bytes r laws (Ad.switch r) 58 (omega arith) (omega arith) AdFields.image_lens
          m.image _ (λ n b. refl) ok.image_size
      then Reads-int32 r laws (Ad.switch r) 64 (omega arith) (omega arith) AdFields.width_lens
          m.width _ (λ n b. refl) ok.width_range
      then Reads-int32 r laws (Ad.switch r) 72 (omega arith) (omega arith) AdFields.height_lens
          m.height _ (λ n b. refl) ok.height_range
      then Reads-text r laws (Ad.switch r) 82 (omega arith) (omega arith) AdFields.format_lens
          m.format _ (λ n b. refl) ok.format_text
      then Reads-int32 r laws (Ad.switch r) 88 (omega arith) (omega arith) AdFields.size_lens m.size
          _ (λ n b. refl) ok.size_range
      then Reads-text r laws (Ad.switch r) 98 (omega arith) (omega arith) AdFields.md5_lens m.md5 _
          (λ n b. refl) ok.md5_text
      then Reads-int32 r laws (Ad.switch r) 104 (omega arith) (omega arith) AdFields.duration_lens
          m.duration _ (λ n b. refl) ok.duration_range
      then Reads-texts r laws (Ad.switch r) 114 (omega arith) (omega arith) AdFields.download_lens
          m.download _ (λ n b. refl) ok.download_texts
      then Reads-int32 r laws (Ad.switch r) 120 (omega arith) (omega arith) AdFields.min_age_lens
          m.min_age _ (λ n b. refl) ok.min_age_range
      then Reads-int32 r laws (Ad.switch r) 128 (omega arith) (omega arith) AdFields.max_age_lens
          m.max_age _ (λ n b. refl) ok.max_age_range
      then Reads-int32 r laws (Ad.switch r) 136 (omega arith) (omega arith) AdFields.sex_lens m.sex
          _ (λ n b. refl) ok.sex_range
      then Reads-texts r laws (Ad.switch r) 146 (omega arith) (omega arith)
          AdFields.visit_stat_code_lens m.visit_stat_code _ (λ n b. refl) ok.visit_stat_code_texts
      then Reads-packed r laws (Ad.switch r) 154 (omega arith) (omega arith)
          AdFields.pause_pop_ad_ids_lens m.pause_pop_ad_ids _ (λ n b. refl)
          ok.pause_pop_ad_ids_range ok.pause_pop_ad_ids_size
      then Reads-packed r laws (Ad.switch r) 162 (omega arith) (omega arith)
          AdFields.unlock_pop_ad_ids_lens m.unlock_pop_ad_ids _ (λ n b. refl)
          ok.unlock_pop_ad_ids_range ok.unlock_pop_ad_ids_size

  merge_from-clear : (m : Ad) → Ad.merge_from Ad.clear m ≡ m
  unfolding Ad.merge_from
  merge_from-clear m = λ i. record {
    id = absent_number m.id i;
    name = absent_bytes m.name i;
    file_name = absent_bytes m.file_name i;
    advertiser = absent_bytes m.advertiser i;
    type = absent_number m.type i;
    url = absent_bytes m.url i;
    image = absent_bytes m.image i;
    width = absent_number m.width i;
    height = absent_number m.height i;
    format = absent_bytes m.format i;
    size = absent_number m.size i;
    md5 = absent_bytes m.md5 i;
    duration = absent_number m.duration i;
    download = m.download;
    min_age = absent_number m.min_age i;
    max_age = absent_number m.max_age i;
    sex = absent_number m.sex i;
    visit_stat_code = m.visit_stat_code;
    pause_pop_ad_ids = m.pause_pop_ad_ids;
    unlock_pop_ad_ids = m.unlock_pop_ad_ids;
  }

  no_zero : (m : Ad) (b : Bytes) → Ad.switch r 0 m b ≡ untaken
  unfolding Ad.switch
  no_zero m b = refl

  pub parse-serialize_ad : (m : Ad) → IsAd r m → Ad.parse r (Ad.serialize r m) ≡ some m
  unfolding Ad.parse
  parse-serialize_ad m ok =
      Reads-parse r laws (Ad.switch r) no_zero (merges Ad.clear m ok) ∙ ap some (merge_from-clear m)

  -- Two advertisements that are written one behind the other read as the second merged into the first,
  -- if their numbers are of 32 bits, their texts UTF-8 and their parts shorter than 2^31 bytes, for a
  -- runtime with its documented laws.
  pub parse-append_ad :
      (m n : Ad)
      → IsAd r m
      → IsAd r n
      → Ad.parse r (Ad.serialize r m ++ Ad.serialize r n) ≡ some (Ad.merge_from m n)
  unfolding Ad.parse
  parse-append_ad m n ok more =
      Reads-parse r laws (Ad.switch r) no_zero
        (merges Ad.clear m ok then merges (Ad.merge_from Ad.clear m) n more)
      ∙ ap (λ k. some (Ad.merge_from k n)) (merge_from-clear m)
