-- ===== src/Player/Ledger.antt =====
-- The references that the player holds, whatever is done with it (player.cpp): the fields name just
-- the objects that are held.
use ad_manager.Base.{
  ℕ, ◌+◌, ◌≡◌, refl, inl, inr, Bool, true, false, ◌&&◌, ◌||◌, Option, none, some, List, [], ◌∷◌,
  arith, Bool-cases, take,
}
use ad_manager.Manager.Types.{PlayItem}
use ad_manager.Player.Com.{
  World, Platform, add_effect, received, slept, EventType, made, called, get_type, get_status,
  session_topology_status, end_of_presentation, new_presentation, session_ended, session_closed,
  other_event, create_event, startup,
}
use ad_manager.Player.References.{gains, losses}
use ad_manager.Player.State.{Player, is_null}
use ad_manager.Player.{notify_play}
use ad_manager.Player.Playback.{opening, play, pause, stop, repaint, resize_video}
use ad_manager.Player.Events.{
  create_session, shutdown, play_next, open_item, handle_event, on_event, read_event, begin_session,
}
use ad_manager.Player.Callback.{invoke}
use ad_manager.Player.Lifetime.{set_video_window, poll}
use ad_manager.Player.Posted.{invoke-Grows}
use ad_manager.Player.Owned.{
  fields, Kept, play-Kept, pause-Kept, stop-Kept, shutdown-Kept, create_session-Kept,
  on_topology_status-Kept, on_new_presentation-Kept, close_session-clear,
}
use ad_manager.Player.Opened.{replaces_source, open_mem-Kept, open_mem-Kept_fresh}

-- What the program does with a player: the commands, a window, a list to play, and a message or a callback
-- that comes.
pub data Action : Type 0 where
  to_play to_pause to_stop to_repaint to_resize next_item new_session shut : Action
  on_callback : Action
  on_message : ℕ → Action
  listed : List PlayItem → Action
  shown : List Bool → Action

module _ (m : Platform) where
  -- The world in which OpenMem is called, once the event of a message is read.
  abbrev ended : ℕ → World → World
  ended e w =
      add_effect slept
        (made (called get_status) (made (called get_type) (add_effect (received e) w)))

  abbrev item_well : Option PlayItem → World → Player → Bool
  item_well none w x = true
  item_well (some it) w x = is_null x.source || replaces_source m w (opening m x)

  -- A file is opened where there was none, or its source takes the place of the old one.
  abbrev opens_well : World → Player → Bool
  opens_well w x =
      let (items, it) = notify_play x.play_list in item_well it w (record x { play_list = items })

  abbrev event_well : EventType → World → Player → Bool
  event_well session_ended w x = opens_well w x
  event_well session_topology_status w x = true
  event_well end_of_presentation w x = true
  event_well new_presentation w x = true
  event_well session_closed w x = true
  event_well other_event w x = true

  abbrev pub well : Action → World → Player → Bool
  well next_item w x = opens_well w x
  well (on_message e) w x = event_well (m.event_type w.calls) (ended e w) x
  well to_play w x = true
  well to_pause w x = true
  well to_stop w x = true
  well to_repaint w x = true
  well to_resize w x = true
  well new_session w x = true
  well shut w x = true
  well on_callback w x = true
  well (listed items) w x = true
  well (shown answers) w x = true

  unfoldable pub act : Action → World → Player → World × Player
  act to_play w x = (play m w x).0
  act to_pause w x = (pause m w x).0
  act to_stop w x = (stop m w x).0
  act to_repaint w x = (repaint m w x).0
  act to_resize w x = (resize_video m w x).0
  act next_item w x = play_next m w x
  act new_session w x = (create_session m w x).0
  act shut w x = (shutdown m w x).0
  act (shown answers) w x = set_video_window m answers w x
  act (listed items) w x = (w, record x { play_list = items })
  act on_callback w x = ((invoke m w x).0, x)
  act (on_message e) w x = (handle_event m (some e) (add_effect (received e) w) x).0

  unfoldable pub act_all : List Action → World → Player → World × Player
  act_all [] w x = (w, x)
  act_all (a ∷ more) w x = let (v, y) = act a w x in act_all more v y

  unfoldable pub all_well : List Action → World → Player → Bool
  all_well [] w x = true
  all_well (a ∷ more) w x =
      let (v, y) = act a w x in let rest = all_well more v y in well a w x && rest

  module _ (p : ℕ) where
    abbrev KeptIn : World → Player → World × Player → Type 0
    KeptIn w x (v, y) = Kept m p (fields m p) w x ((v, y), 0)

    open_item-Kept :
        (it : Option PlayItem) (w : World) (x : Player)
        → item_well it w x ≡ true
        → KeptIn w x (open_item m it w x)
    open_item-Kept none w x e = refl
    open_item-Kept (some it) w x e = elim (Bool-cases (replaces_source m w (opening m x))) [
      | inl is_new ↦ open_mem-Kept m p w x is_new
      | inr still ↦ open_mem-Kept_fresh m p w x (null_lem x.source (ground arith))
    ]
      where
        null_lem : (o : Option ℕ) → is_null o ≡ true → o ≡ none
        null_lem none e = refl
        null_lem (some n) e = absurd (ground arith)

    play_next-Kept : (w : World) (x : Player) → opens_well w x ≡ true → KeptIn w x (play_next m w x)
    unfolding play_next
    play_next-Kept w x e =
        let (items, it) = notify_play x.play_list in
        open_item-Kept it w (record x { play_list = items }) e

    on_event-Kept :
        (t : EventType) (w : World) (x : Player)
        → event_well t (add_effect slept w) x ≡ true
        → Kept m p (fields m p) w x (on_event m t w x)
    unfolding on_event
    on_event-Kept session_ended w x e = play_next-Kept (add_effect slept w) x e
    on_event-Kept session_topology_status w x e = on_topology_status-Kept m p w x
    on_event-Kept end_of_presentation w x e = refl
    on_event-Kept new_presentation w x e = on_new_presentation-Kept m p w x
    on_event-Kept session_closed w x e = refl
    on_event-Kept other_event w x e = refl

    read_event-Kept :
        (w : World) (x : Player)
        → event_well
            (m.event_type w.calls)
            (add_effect slept (made (called get_status) (made (called get_type) w)))
            x
          ≡ true
        → Kept m p (fields m p) w x (read_event m w x)
    read_event-Kept w x e = ground (
      arith,
      on_event-Kept (m.event_type w.calls) (made (called get_status) (made (called get_type) w)) x
          e,
    )

    handle_event-Kept :
        (n : ℕ) (w : World) (x : Player)
        → well (on_message n) w x ≡ true
        → KeptIn w x (act (on_message n) w x)
    unfolding act handle_event
    handle_event-Kept n w x e = ground (arith, read_event-Kept (add_effect (received n) w) x e)

    item_well-fresh :
        (it : Option PlayItem) (w : World) (x : Player) → x.source ≡ none → item_well it w x ≡ true
    item_well-fresh none w x e = refl
    item_well-fresh (some it) w x e = rw e refl

    poll-Kept :
        (answers : List Bool) (w : World) (x : Player)
        → x.source ≡ none
        → KeptIn w x (poll m answers w x)
    unfolding poll
    poll-Kept [] w x e = refl
    poll-Kept (true ∷ more) w x e =
        let (items, it) = notify_play x.play_list in
        play_next-Kept w x (item_well-fresh it w (record x { play_list = items }) e)
    poll-Kept (false ∷ more) w x e = poll-Kept more (add_effect slept w) x e

    -- There is no source left from the session before.
    create_session-source : (w : World) (x : Player) → (create_session m w x).0.1.source ≡ none
    unfolding create_session begin_session
    create_session-source w x = ground (arith, close_session-clear m p w x)

    set_video_window-Kept :
        (answers : List Bool) (w : World) (x : Player) → KeptIn w x (set_video_window m answers w x)
    unfolding set_video_window
    set_video_window-Kept answers w x =
        let u = made (called create_event) (made (called startup) w) in
        let y : Player = record x { close_event = true } in
        let (t, z) = (create_session m u y).0 in
        ground (
          arith,
          create_session-Kept m p u y,
          poll-Kept (take 30 answers) t z (create_session-source u y),
        )

    act-Kept : (a : Action) (w : World) (x : Player) → well a w x ≡ true → KeptIn w x (act a w x)
    unfolding act repaint resize_video
    act-Kept to_play w x e = play-Kept m p w x
    act-Kept to_pause w x e = pause-Kept m p w x
    act-Kept to_stop w x e = stop-Kept m p w x
    act-Kept to_repaint w x e = ground arith
    act-Kept to_resize w x e = ground arith
    act-Kept next_item w x e = play_next-Kept w x e
    act-Kept new_session w x e = create_session-Kept m p w x
    act-Kept shut w x e = shutdown-Kept m p w x
    act-Kept (listed items) w x e = refl
    act-Kept (shown answers) w x e = set_video_window-Kept answers w x
    act-Kept on_callback w x e = omega (arith, invoke-Grows m p w x)
    act-Kept (on_message n) w x e = handle_event-Kept n w x e

    -- The object is held as often as the player's fields name it.
    abbrev pub IsOwned : World × Player → Type 0
    IsOwned (w, x) = gains p w.log ≡ losses p w.log + fields m p x

    -- If the player holds an object as often as its fields name it, it does so after any sequence of
    -- commands, windows, play lists, callbacks and messages, whatever the platform answers to each
    -- call, as long as each file that is opened over another one gets as far as its source.
    pub act_all-IsOwned :
        (actions : List Action) (w : World) (x : Player)
        → all_well actions w x ≡ true
        → IsOwned (w, x)
        → IsOwned (act_all actions w x)
    unfolding act_all all_well
    act_all-IsOwned [] w x e owned = owned
    act_all-IsOwned (a ∷ more) w x e owned =
        let (v, y) = act a w x in
        act_all-IsOwned more v y (ground arith) (omega (arith, act-Kept a w x (ground arith)))
