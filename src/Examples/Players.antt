-- ===== src/Examples/Players.antt =====
-- The turns of the play list at a concrete list.
use ad_manager.Base.{ℕ, ◌≡◌, refl, none, some, [], ◌∷◌, ◌++◌, length}
use ad_manager.Manager.Types.{PlayItem}
use ad_manager.Player.{is_playable, turns}
use ad_manager.Player.Turns.{playable_of, turns-front}

abbrev video : ℕ → PlayItem
video id = record { id = id; type = 1; filename = []; adfile = some (id ∷ []) }

-- It has no file yet.
abbrev pending_video : PlayItem
pending_video = record { id = 2; type = 1; filename = []; adfile = none }

turns-front_example :
    turns
      (length (playable_of (video 1 ∷ pending_video ∷ video 3 ∷ [])))
      ((video 1 ∷ pending_video ∷ video 3 ∷ []) ++ (video 4 ∷ []))
    ≡ playable_of (video 1 ∷ pending_video ∷ video 3 ∷ [])
turns-front_example = turns-front (video 1 ∷ pending_video ∷ video 3 ∷ []) (video 4 ∷ [])

-- Two are opened.
opened_two : playable_of (video 1 ∷ pending_video ∷ video 3 ∷ []) ≡ video 1 ∷ video 3 ∷ []
unfolding is_playable
opened_two = refl
