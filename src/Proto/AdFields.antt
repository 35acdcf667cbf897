-- ===== src/Proto/AdFields.antt =====
-- The accessors of the class Ad (ad/AdPlayPolicy.pb.h).
use ad_manager.Base.{refl, List, ℤ}
use ad_manager.Wire.{Bytes}
use ad_manager.Proto.Types.{Ad}
use ad_manager.Proto.Fields.{Lens}

abbrev pub id_lens : Lens Ad ℤ
id_lens = record {
  get = λ m. m.id;
  set = λ v m. record m { id = v };
  set-get = λ m. refl;
  get-set = λ v m. refl;
  set-set = λ v w m. refl;
}

abbrev pub name_lens : Lens Ad Bytes
name_lens = record {
  get = λ m. m.name;
  set = λ v m. record m { name = v };
  set-get = λ m. refl;
  get-set = λ v m. refl;
  set-set = λ v w m. refl;
}

abbrev pub file_name_lens : Lens Ad Bytes
file_name_lens = record {
  get = λ m. m.file_name;
  set = λ v m. record m { file_name = v };
  set-get = λ m. refl;
  get-set = λ v m. refl;
  set-set = λ v w m. refl;
}

abbrev pub advertiser_lens : Lens Ad Bytes
advertiser_lens = record {
  get = λ m. m.advertiser;
  set = λ v m. record m { advertiser = v };
  set-get = λ m. refl;
  get-set = λ v m. refl;
  set-set = λ v w m. refl;
}

abbrev pub type_lens : Lens Ad ℤ
type_lens = record {
  get = λ m. m.type;
  set = λ v m. record m { type = v };
  set-get = λ m. refl;
  get-set = λ v m. refl;
  set-set = λ v w m. refl;
}

abbrev pub url_lens : Lens Ad Bytes
url_lens = record {
  get = λ m. m.url;
  set = λ v m. record m { url = v };
  set-get = λ m. refl;
  get-set = λ v m. refl;
  set-set = λ v w m. refl;
}

abbrev pub image_lens : Lens Ad Bytes
image_lens = record {
  get = λ m. m.image;
  set = λ v m. record m { image = v };
  set-get = λ m. refl;
  get-set = λ v m. refl;
  set-set = λ v w m. refl;
}

abbrev pub width_lens : Lens Ad ℤ
width_lens = record {
  get = λ m. m.width;
  set = λ v m. record m { width = v };
  set-get = λ m. refl;
  get-set = λ v m. refl;
  set-set = λ v w m. refl;
}

abbrev pub height_lens : Lens Ad ℤ
height_lens = record {
  get = λ m. m.height;
  set = λ v m. record m { height = v };
  set-get = λ m. refl;
  get-set = λ v m. refl;
  set-set = λ v w m. refl;
}

abbrev pub format_lens : Lens Ad Bytes
format_lens = record {
  get = λ m. m.format;
  set = λ v m. record m { format = v };
  set-get = λ m. refl;
  get-set = λ v m. refl;
  set-set = λ v w m. refl;
}

abbrev pub size_lens : Lens Ad ℤ
size_lens = record {
  get = λ m. m.size;
  set = λ v m. record m { size = v };
  set-get = λ m. refl;
  get-set = λ v m. refl;
  set-set = λ v w m. refl;
}

abbrev pub md5_lens : Lens Ad Bytes
md5_lens = record {
  get = λ m. m.md5;
  set = λ v m. record m { md5 = v };
  set-get = λ m. refl;
  get-set = λ v m. refl;
  set-set = λ v w m. refl;
}

abbrev pub duration_lens : Lens Ad ℤ
duration_lens = record {
  get = λ m. m.duration;
  set = λ v m. record m { duration = v };
  set-get = λ m. refl;
  get-set = λ v m. refl;
  set-set = λ v w m. refl;
}

abbrev pub download_lens : Lens Ad (List Bytes)
download_lens = record {
  get = λ m. m.download;
  set = λ v m. record m { download = v };
  set-get = λ m. refl;
  get-set = λ v m. refl;
  set-set = λ v w m. refl;
}

abbrev pub min_age_lens : Lens Ad ℤ
min_age_lens = record {
  get = λ m. m.min_age;
  set = λ v m. record m { min_age = v };
  set-get = λ m. refl;
  get-set = λ v m. refl;
  set-set = λ v w m. refl;
}

abbrev pub max_age_lens : Lens Ad ℤ
max_age_lens = record {
  get = λ m. m.max_age;
  set = λ v m. record m { max_age = v };
  set-get = λ m. refl;
  get-set = λ v m. refl;
  set-set = λ v w m. refl;
}

abbrev pub sex_lens : Lens Ad ℤ
sex_lens = record {
  get = λ m. m.sex;
  set = λ v m. record m { sex = v };
  set-get = λ m. refl;
  get-set = λ v m. refl;
  set-set = λ v w m. refl;
}

abbrev pub visit_stat_code_lens : Lens Ad (List Bytes)
visit_stat_code_lens = record {
  get = λ m. m.visit_stat_code;
  set = λ v m. record m { visit_stat_code = v };
  set-get = λ m. refl;
  get-set = λ v m. refl;
  set-set = λ v w m. refl;
}

abbrev pub pause_pop_ad_ids_lens : Lens Ad (List ℤ)
pause_pop_ad_ids_lens = record {
  get = λ m. m.pause_pop_ad_ids;
  set = λ v m. record m { pause_pop_ad_ids = v };
  set-get = λ m. refl;
  get-set = λ v m. refl;
  set-set = λ v w m. refl;
}

abbrev pub unlock_pop_ad_ids_lens : Lens Ad (List ℤ)
unlock_pop_ad_ids_lens = record {
  get = λ m. m.unlock_pop_ad_ids;
  set = λ v m. record m { unlock_pop_ad_ids = v };
  set-get = λ m. refl;
  get-set = λ v m. refl;
  set-set = λ v w m. refl;
}
