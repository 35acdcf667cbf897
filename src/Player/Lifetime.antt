-- ===== src/Player/Lifetime.antt =====
-- player.cpp: how a player comes to be and goes, and the window.
use ad_manager.Base.{
  ℕ, ◌+◌, ◌-◌, Bool, true, false, Option, none, some, List, [], ◌∷◌, ◌==◌, if◌then◌else◌, take,
}
use ad_manager.Player.Com.{
  slept, World, Platform, s_ok, add_effect, failed, made, e_outofmemory, called, startup,
  create_event,
}
use ad_manager.Player.State.{Player, new_player}
use ad_manager.Player.Events.{create_session, shutdown, play_next}

-- GetProcAddresses: the library is loaded, then each name is looked up, to the first that is missing.
abbrev pub all_found : List Bool → Bool
all_found [] = true
all_found (found ∷ more) = if found then all_found more else false

abbrev pub get_proc_addresses : Bool → List Bool → Bool
get_proc_addresses loads found = if loads then all_found found else false

-- What the two libraries have.
pub record Libraries : Type 0 where
  pub mfplat : Bool
  pub mfplat_names : List Bool
  pub mf : Bool
  pub mf_names : List Bool

unfoldable pub initialize : Libraries → ℕ
initialize l =
    if get_proc_addresses l.mfplat l.mfplat_names
    then (if get_proc_addresses l.mf l.mf_names then s_ok else 0xFFFFFFFF)
    else 0xFFFFFFFF

unfoldable pub player_add_ref : Player → Player
player_add_ref x = record x { ref_count = x.ref_count + 1 }

module _ (p : Platform) where
  -- The last reference deletes the player, and its destructor shuts it down.
  unfoldable pub player_release : World → Player → (World × Option Player) × ℕ
  unfolding shutdown
  player_release w x =
      let remaining = x.ref_count - 1 in
      if remaining == 0
      then (((shutdown p w (record x { ref_count = 0 })).0.0, none), remaining)
      else ((w, some (record x { ref_count = remaining })), remaining)

  -- CreateInstance: `allocated` tells whether there is memory for a player.
  unfoldable pub create_instance : Bool → Libraries → World → (World × Option Player) × ℕ
  unfolding initialize player_release new_player
  create_instance allocated l w =
      let hr = initialize l in
      if allocated
      then (if failed hr
          then (
            (
              (player_release w (new_player (get_proc_addresses l.mfplat l.mfplat_names))).0.0,
              none,
            ),
            hr,
          )
          else ((w, some (new_player true)), hr))
      else ((w, none), e_outofmemory)

  -- The flag is looked at 30 times at most, with a tenth of a second in between.
  unfoldable pub poll : List Bool → World → Player → World × Player
  unfolding play_next
  poll [] w x = (w, x)
  poll (is_ready ∷ more) w x =
      let rest = poll more (add_effect slept w) x in if is_ready then play_next p w x else rest

  -- SetVideoWindow: `answers` are the values of the flag, as it would be seen.
  unfoldable pub set_video_window : List Bool → World → Player → World × Player
  unfolding create_session poll
  set_video_window answers w x =
      let v = made (called startup) w in
      let u = made (called create_event) v in
      let y = record x { close_event = true } in
      let (t, z) = (create_session p u y).0 in
      if failed (p.answer w.calls)
      then (v, x)
      else if failed (p.answer v.calls)
      then (u, record x { close_event = false })
      else poll (take 30 answers) t z
