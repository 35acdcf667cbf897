-- ===== src/Examples/Playback.antt =====
-- A player with a platform that answers in a fixed way.
use ad_manager.Base.{ℕ, ◌+◌, ◌≡◌, refl, true, false, some, List, [], ◌∷◌, ◌==◌, if◌then◌else◌}
use ad_manager.Manager.Types.{PlayItem}
use ad_manager.Player.{is_playable, notify_play}
use ad_manager.Player.Com.{
  World, Platform, failed, audio, video, topology_ready, session_topology_status, e_fail,
}
use ad_manager.Player.References.{gains, losses, holds}
use ad_manager.Player.State.{Player, new_player, started}
use ad_manager.Player.Playback.{open_mem, opening}
use ad_manager.Player.Dangling.{open_mem-dangling}
use ad_manager.Player.Opened.{replaces_source}
use ad_manager.Player.Ledger.{
  Action, act, act_all, all_well, to_play, to_pause, to_stop, next_item, new_session, shut,
  on_callback, on_message, listed, act_all-IsOwned, IsOwned,
}
use ad_manager.Player.Guards.{IsQuiet, faults}
use ad_manager.Player.Sessions.{all_guarded, act_all-IsQuiet}
use ad_manager.Player.Commands.{command-turn, Turns}
use ad_manager.Player.Events.{create_session, handle_event, shutdown}
use ad_manager.Player.Playback.{stop, play, pause}
use ad_manager.Player.Callback.{invoke}

-- Every call succeeds, but for one; the messages tell of a topology that is ready.
abbrev pub platform : ℕ → Platform
platform bad = record {
  answer = λ n. if n == bad then e_fail else 0;
  is_unknown = λ n. true;
  is_selected = λ n. true;
  stream_count = λ n. 2;
  major_type = λ n. if n == 9 then audio else video;
  topology_status = λ n. topology_ready;
  event_type = λ n. session_topology_status;
  event_status = λ n. 0;
  callbacks_in_wait = λ n. 1;
}

abbrev film : PlayItem
film = record { id = 1; type = 1; filename = []; adfile = some (7 ∷ []) }

abbrev first_world : World
first_world = record { calls = 0; log = [] }

-- A list, a window in which a film is opened, a callback, the message that the topology is ready, and the commands.
abbrev evening : List Action
evening =
    new_session
    ∷ listed (film ∷ [])
    ∷ next_item
    ∷ on_callback
    ∷ on_message 41
    ∷ to_pause
    ∷ to_play
    ∷ to_stop
    ∷ next_item
    ∷ on_callback
    ∷ []

abbrev fresh : Player
fresh = new_player true

evening_well : all_well (platform 1000) evening first_world fresh ≡ true
unfolding all_well new_player failed notify_play act is_playable create_session stop play pause
    handle_event invoke
evening_well = refl

act_all-IsOwned_example :
    IsOwned (platform 1000) 15 (act_all (platform 1000) evening first_world fresh)
unfolding new_player
act_all-IsOwned_example =
    act_all-IsOwned (platform 1000) 15 evening first_world fresh evening_well refl

evening_guarded : all_guarded (platform 1000) evening first_world fresh ≡ true
unfolding all_guarded act_all new_player failed notify_play act is_playable create_session stop play
    pause handle_event invoke
evening_guarded = refl

act_all-IsQuiet_example : IsQuiet first_world (act_all (platform 1000) evening first_world fresh).0
act_all-IsQuiet_example = act_all-IsQuiet (platform 1000) evening first_world fresh evening_guarded

-- A message that comes when the session is closed.
abbrev late : List Action
late = new_session ∷ shut ∷ on_message 100 ∷ []

late-faults : faults (act_all (platform 1000) late first_world fresh).0.log ≡ 2
unfolding act_all shutdown new_player failed notify_play act is_playable create_session stop play
    pause handle_event invoke
late-faults = refl

abbrev playing : Player
playing = record fresh { session = some 1; source = some 2; state = started }

command-turn_example :
    Turns
      (platform 1000)
      to_pause
      first_world
      playing
      (act (platform 1000) to_pause first_world playing).1
command-turn_example = command-turn (platform 1000) to_pause first_world playing refl

-- The call for the byte stream fails.
stuck : replaces_source (platform 1) first_world (opening (platform 1) playing) ≡ false
unfolding failed
stuck = refl

open_mem-dangling_example :
    let ((v, y), hr) = open_mem (platform 1) first_world playing in
    (y.source ≡ some 2)
    × (gains 2 v.log + losses 2 first_world.log + holds 2 (some 2)
        ≡ gains 2 first_world.log + losses 2 v.log)
open_mem-dangling_example = open_mem-dangling (platform 1) 2 first_world playing stuck
