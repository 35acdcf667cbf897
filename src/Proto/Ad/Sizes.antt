-- ===== src/Proto/Ad/Sizes.antt =====
-- How many bytes the class Ad of ad/AdPlayPolicy.pb.cc writes, against its ByteSizeLong.
use ad_manager.Base.{◌≡◌, arith, length, All-map}
use ad_manager.Message.Runtime.{Runtime, IsRuntime}
use ad_manager.Proto.Types.{Ad}
use ad_manager.Proto.Writable.{IsAd}
use ad_manager.Proto.Sizes.{
  ◌next◌, int32_field-Takes, string_field-Takes, texts-Takes, packed_field-Takes,
}
use ad_manager.Proto.Ad

module _ (r : Runtime) (laws : IsRuntime r) where
  open laws use {tag_size as one_byte, tag_size_two as two_bytes}

  pub length-serialize_ad : (m : Ad) → IsAd r m → length (Ad.serialize r m) ≡ Ad.byte_size_long r m
  unfolding Ad.serialize Ad.byte_size_long
  length-serialize_ad m ok =
      let written =
        int32_field-Takes r laws 8 1 (one_byte 8 (omega arith)) m.id ok.id_range
        next string_field-Takes r laws 18 1 (one_byte 18 (omega arith)) m.name (ok.name_text).1
        next string_field-Takes r laws 26 1 (one_byte 26 (omega arith)) m.file_name
            (ok.file_name_text).1
        next string_field-Takes r laws 34 1 (one_byte 34 (omega arith)) m.advertiser
            (ok.advertiser_text).1
        next int32_field-Takes r laws 40 1 (one_byte 40 (omega arith)) m.type ok.type_range
        next string_field-Takes r laws 50 1 (one_byte 50 (omega arith)) m.url (ok.url_text).1
        next string_field-Takes r laws 58 1 (one_byte 58 (omega arith)) m.image ok.image_size
        next int32_field-Takes r laws 64 1 (one_byte 64 (omega arith)) m.width ok.width_range
        next int32_field-Takes r laws 72 1 (one_byte 72 (omega arith)) m.height ok.height_range
        next string_field-Takes r laws 82 1 (one_byte 82 (omega arith)) m.format (ok.format_text).1
        next int32_field-Takes r laws 88 1 (one_byte 88 (omega arith)) m.size ok.size_range
        next string_field-Takes r laws 98 1 (one_byte 98 (omega arith)) m.md5 (ok.md5_text).1
        next int32_field-Takes r laws 104 1 (one_byte 104 (omega arith)) m.duration
            ok.duration_range
        next texts-Takes r laws 114 1 (one_byte 114 (omega arith)) m.download
            (All-map (λ v w. w.1) m.download ok.download_texts)
        next int32_field-Takes r laws 120 1 (one_byte 120 (omega arith)) m.min_age ok.min_age_range
        next int32_field-Takes r laws 128 2 (two_bytes 128 (omega arith) (omega arith)) m.max_age
            ok.max_age_range
        next int32_field-Takes r laws 136 2 (two_bytes 136 (omega arith) (omega arith)) m.sex
            ok.sex_range
        next texts-Takes r laws 146 2 (two_bytes 146 (omega arith) (omega arith)) m.visit_stat_code
            (All-map (λ v w. w.1) m.visit_stat_code ok.visit_stat_code_texts)
        next packed_field-Takes r laws 154 2 (two_bytes 154 (omega arith) (omega arith))
            m.pause_pop_ad_ids ok.pause_pop_ad_ids_range ok.pause_pop_ad_ids_size
        next packed_field-Takes r laws 162 2 (two_bytes 162 (omega arith) (omega arith))
            m.unlock_pop_ad_ids ok.unlock_pop_ad_ids_range ok.unlock_pop_ad_ids_size in
      omega (arith, written.size)
