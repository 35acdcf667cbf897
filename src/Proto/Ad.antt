-- ===== src/Proto/Ad.antt =====
-- ad/AdPlayPolicy.pb.cc: the class Ad: Clear, MergePartialFromCodedStream, SerializeWithCachedSizes,
-- ByteSizeLong and MergeFrom.
use ad_manager.Base.{ℕ, ◌+◌, Option, [], ◌++◌, ◌==◌, if◌then◌else◌, is_empty, pos, is_zero}
use ad_manager.Wire.{Bytes}
use ad_manager.Message.Runtime.{Runtime}
use ad_manager.Message.Generated.{int32_field, string_field}
use ad_manager.Proto.Types.{Ad}
use ad_manager.Proto.AdFields.{
  id_lens, name_lens, file_name_lens, advertiser_lens, type_lens, url_lens, image_lens, width_lens,
  height_lens, format_lens, size_lens, md5_lens, duration_lens, download_lens, min_age_lens,
  max_age_lens, sex_lens, visit_stat_code_lens, pause_pop_ad_ids_lens, unlock_pop_ad_ids_lens,
}
use ad_manager.Proto.Loop.{Case, untaken, parse_into}
use ad_manager.Proto.Fields.{
  int32_case, text_case, bytes_case, texts_case, packed_case, single_case, repeated_field,
  packed_field, int32_bytes, string_bytes, texts_bytes, packed_bytes,
}
pub mod RoundTrip
pub mod Sizes

-- A message that was cleared.
abbrev pub clear : Ad
clear = record {
  id = pos 0;
  name = [];
  file_name = [];
  advertiser = [];
  type = pos 0;
  url = [];
  image = [];
  width = pos 0;
  height = pos 0;
  format = [];
  size = pos 0;
  md5 = [];
  duration = pos 0;
  download = [];
  min_age = pos 0;
  max_age = pos 0;
  sex = pos 0;
  visit_stat_code = [];
  pause_pop_ad_ids = [];
  unlock_pop_ad_ids = [];
}

unfoldable pub merge_from : Ad → Ad → Ad
merge_from a b = record {
  id = if is_zero b.id then a.id else b.id;
  name = if is_empty b.name then a.name else b.name;
  file_name = if is_empty b.file_name then a.file_name else b.file_name;
  advertiser = if is_empty b.advertiser then a.advertiser else b.advertiser;
  type = if is_zero b.type then a.type else b.type;
  url = if is_empty b.url then a.url else b.url;
  image = if is_empty b.image then a.image else b.image;
  width = if is_zero b.width then a.width else b.width;
  height = if is_zero b.height then a.height else b.height;
  format = if is_empty b.format then a.format else b.format;
  size = if is_zero b.size then a.size else b.size;
  md5 = if is_empty b.md5 then a.md5 else b.md5;
  duration = if is_zero b.duration then a.duration else b.duration;
  download = a.download ++ b.download;
  min_age = if is_zero b.min_age then a.min_age else b.min_age;
  max_age = if is_zero b.max_age then a.max_age else b.max_age;
  sex = if is_zero b.sex then a.sex else b.sex;
  visit_stat_code = a.visit_stat_code ++ b.visit_stat_code;
  pause_pop_ad_ids = a.pause_pop_ad_ids ++ b.pause_pop_ad_ids;
  unlock_pop_ad_ids = a.unlock_pop_ad_ids ++ b.unlock_pop_ad_ids;
}

module _ (r : Runtime) where
  unfoldable pub serialize : Ad → Bytes
  serialize m =
      int32_field r 8 m.id
      ++ (string_field r 18 m.name
          ++ (string_field r 26 m.file_name
              ++ (string_field r 34 m.advertiser
                  ++ (int32_field r 40 m.type
                      ++ (string_field r 50 m.url
                          ++ (string_field r 58 m.image
                              ++ (int32_field r 64 m.width
                                  ++ (int32_field r 72 m.height
                                      ++ (string_field r 82 m.format
                                          ++ (int32_field r 88 m.size
                                              ++ (string_field r 98 m.md5
                                                  ++ (int32_field r 104 m.duration
                                                      ++ (repeated_field r 114 (λ v. v) m.download
                                                          ++ (int32_field r 120 m.min_age
                                                            ++ (int32_field r 128 m.max_age
                                                            ++ (int32_field r 136 m.sex
                                                            ++ (repeated_field r 146 (λ v. v)
                                                            m.visit_stat_code
                                                            ++ (packed_field r 154
                                                            m.pause_pop_ad_ids
                                                            ++ (packed_field r 162
                                                            m.unlock_pop_ad_ids)))))))))))))))))))

  unfoldable pub byte_size_long : Ad → ℕ
  byte_size_long m =
      texts_bytes r 1 m.download
      + texts_bytes r 2 m.visit_stat_code
      + packed_bytes r 2 m.pause_pop_ad_ids
      + packed_bytes r 2 m.unlock_pop_ad_ids
      + string_bytes r 1 m.name
      + string_bytes r 1 m.file_name
      + string_bytes r 1 m.advertiser
      + string_bytes r 1 m.url
      + string_bytes r 1 m.image
      + string_bytes r 1 m.format
      + string_bytes r 1 m.md5
      + int32_bytes r 1 m.id
      + int32_bytes r 1 m.type
      + int32_bytes r 1 m.width
      + int32_bytes r 1 m.height
      + int32_bytes r 1 m.size
      + int32_bytes r 1 m.duration
      + int32_bytes r 1 m.min_age
      + int32_bytes r 2 m.max_age
      + int32_bytes r 2 m.sex

  -- The switch. A case is taken by its field number and left for handle_unusual unless the tag is
  -- the expected one, so the tag alone decides.
  unfoldable pub switch : ℕ → Ad → Bytes → Case Ad
  switch tag m b =
      if tag == 8
      then int32_case r id_lens m b
      else if tag == 18
      then text_case r name_lens m b
      else if tag == 26
      then text_case r file_name_lens m b
      else if tag == 34
      then text_case r advertiser_lens m b
      else if tag == 40
      then int32_case r type_lens m b
      else if tag == 50
      then text_case r url_lens m b
      else if tag == 58
      then bytes_case r image_lens m b
      else if tag == 64
      then int32_case r width_lens m b
      else if tag == 72
      then int32_case r height_lens m b
      else if tag == 82
      then text_case r format_lens m b
      else if tag == 88
      then int32_case r size_lens m b
      else if tag == 98
      then text_case r md5_lens m b
      else if tag == 104
      then int32_case r duration_lens m b
      else if tag == 114
      then texts_case r download_lens m b
      else if tag == 120
      then int32_case r min_age_lens m b
      else if tag == 128
      then int32_case r max_age_lens m b
      else if tag == 136
      then int32_case r sex_lens m b
      else if tag == 146
      then texts_case r visit_stat_code_lens m b
      else if tag == 154
      then packed_case r pause_pop_ad_ids_lens m b
      else if tag == 152
      then single_case r 154 pause_pop_ad_ids_lens m b
      else if tag == 162
      then packed_case r unlock_pop_ad_ids_lens m b
      else if tag == 160
      then single_case r 162 unlock_pop_ad_ids_lens m b
      else untaken

  unfoldable pub parse : Bytes → Option Ad
  unfolding switch
  parse b = parse_into r switch clear b
