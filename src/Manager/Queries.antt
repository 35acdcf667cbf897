-- ===== src/Manager/Queries.antt =====
-- The operations of AdManager that a program calls: getAd, getLockImage, getAdFile, getAdList,
-- getAdPlayPolicy, setConfig, setVideoWnd, closeVideoWnd, bgnBusiness and endBusiness.
use ad_manager.Base.{ℕ, Option, none, some, List, [], ◌∷◌, ◌==◌, if◌then◌else◌, is_empty, find}
use ad_manager.Wire.{Bytes}
use ad_manager.Manager.Types.{Manager, Ad, AdPlayPolicy}
use ad_manager.Manager.Download.{touch, ad_at}

-- An advertisement that is not known is added, empty.
unfoldable pub get_ad : ℕ → Manager → Manager × Ad
unfolding touch
get_ad id a = (touch id a, ad_at id a)

-- A picture.
abbrev pub picture : ℕ
picture = 4

-- What one advertisement of the lock screen gives: its picture, or the file of that number.
abbrev pub picture_of : Option Ad → Option Bytes → Option Bytes
picture_of none file = none
picture_of (some ad) file =
    if ad.type == picture then (if is_empty ad.image then file else some ad.image) else none

abbrev pub or_next : Option Bytes → Bytes → Bytes
or_next none next = next
or_next (some image) next = image

unfoldable pub lock_image : List ℕ → Manager → Bytes
lock_image [] a = []
lock_image (id ∷ ids) a =
    or_next (picture_of (find id a.map_ad) (find id a.buf_images)) (lock_image ids a)

unfoldable pub get_lock_image : Manager → Bytes
unfolding lock_image
get_lock_image a = lock_image a.lock_ads a

-- `*_bufImages[adId]`: a number that is not there gives a null pointer, and the program faults.
unfoldable pub get_ad_file : ℕ → Manager → Option Bytes
get_ad_file id a = find id a.buf_images

unfoldable pub get_ad_list : Manager → List (ℕ × Ad)
get_ad_list a = a.map_ad

unfoldable pub get_ad_play_policy : Manager → AdPlayPolicy
get_ad_play_policy a = a.policy
