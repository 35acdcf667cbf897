-- ===== src/Player/Turns.antt =====
-- In which order the items of the play list are played (player.cpp, NotifyPlay).
use ad_manager.Base.{
  ℕ, zero, suc, ◌<◌, ◌≡◌, refl, sym, ap, ◌∙◌, ◌⊎◌, inl, inr, true, false, some, List, [], ◌∷◌, ◌++◌,
  append_assoc, arith, if◌then◌else◌, Bool-cases, length, length-append,
}
use ad_manager.Manager.Types.{PlayItem}
use ad_manager.Player.{is_playable, next_turn, notify_play, turns}

abbrev pub playable_of : List PlayItem → List PlayItem
playable_of [] = []
playable_of (it ∷ its) = if is_playable it then it ∷ playable_of its else playable_of its

-- The items before the first that can be played are passed over.
next_turn-past :
    (n : ℕ) (xs ys : List PlayItem) (it : PlayItem)
    → length xs < n
    → playable_of xs ≡ []
    → is_playable it ≡ true
    → next_turn n (xs ++ (it ∷ ys)) ≡ (ys ++ (xs ++ (it ∷ [])), some it)
unfolding next_turn
next_turn-past zero xs ys it h none_before can = absurd (omega arith)
next_turn-past (suc n) [] ys it h none_before can = rw (can, next_turn) refl
next_turn-past (suc n) (x ∷ xs) ys it h none_before can = elim (Bool-cases (is_playable x)) [
  | inl e ↦ absurd (ground arith)
  | inr e ↦
      let later : playable_of xs ≡ [] = ground arith in
      rw (e, append_assoc xs (it ∷ ys) (x ∷ []))
        (next_turn-past n xs (ys ++ (x ∷ [])) it (omega arith) later can
          ∙ rw (append_assoc ys (x ∷ []) (xs ++ (it ∷ []))) refl)
]

notify_play-past :
    (xs ys : List PlayItem) (it : PlayItem)
    → playable_of xs ≡ []
    → is_playable it ≡ true
    → notify_play (xs ++ (it ∷ ys)) ≡ (ys ++ (xs ++ (it ∷ [])), some it)
unfolding notify_play
notify_play-past xs ys it none_before can =
    next_turn-past (length (xs ++ (it ∷ ys))) xs ys it (omega (arith, length-append xs (it ∷ ys)))
      none_before can

-- A list has no item that can be played, or a first one.
data HeadCase : List PlayItem → Type 0 where
  no_first : {xs : List PlayItem} → playable_of xs ≡ [] → HeadCase xs
  first_at :
      (xs ys : List PlayItem) (it : PlayItem)
      → playable_of xs ≡ []
      → is_playable it ≡ true
      → HeadCase (xs ++ (it ∷ ys))

look_ahead : (zs : List PlayItem) → HeadCase zs
look_ahead [] = no_first refl
look_ahead (z ∷ zs) = elim (Bool-cases (is_playable z)) [
  | inl e ↦ first_at [] zs z refl e
  | inr e ↦ later (look_ahead zs) e
]
  where
    later : {ws : List PlayItem} → HeadCase ws → is_playable z ≡ false → HeadCase (z ∷ ws)
    later (no_first n) e = no_first (rw e n)
    later (first_at xs ys it n can) e = first_at (z ∷ xs) ys it (rw e n) can

-- An item that cannot be played may as well stand at the end, if another can.
passed_over :
    (x : PlayItem) (xs ys : List PlayItem)
    → is_playable x ≡ false
    → (playable_of xs ≡ []) ⊎ (notify_play (x ∷ (xs ++ ys)) ≡ notify_play (xs ++ (ys ++ (x ∷ []))))
passed_over x xs ys e = go (look_ahead xs)
  where
    go :
        {ws : List PlayItem}
        → HeadCase ws
        → (playable_of ws ≡ [])
          ⊎ (notify_play (x ∷ (ws ++ ys)) ≡ notify_play (ws ++ (ys ++ (x ∷ []))))
    go (no_first n) = inl n
    go (first_at ps qs it n can) = inr (
        rw (append_assoc ps (it ∷ qs) ys, append_assoc ps (it ∷ qs) (ys ++ (x ∷ [])))
          (notify_play-past (x ∷ ps) (qs ++ ys) it (rw e n) can
            ∙ ap (λ l. (l, some it))
                (append_assoc qs ys (x ∷ (ps ++ (it ∷ [])))
                  ∙ ap (λ l. qs ++ l) (sym (append_assoc ys (x ∷ []) (ps ++ (it ∷ []))))
                  ∙ sym (append_assoc qs (ys ++ (x ∷ [])) (ps ++ (it ∷ []))))
            ∙ sym (notify_play-past ps (qs ++ (ys ++ (x ∷ []))) it n can)))

turns-same :
    (n : ℕ) (xs ys : List PlayItem) → notify_play xs ≡ notify_play ys → turns n xs ≡ turns n ys
unfolding turns
turns-same zero xs ys e = refl
turns-same (suc n) xs ys e = rw e refl

-- Over as many calls as a front part of the list has items that can be played, just these are
-- opened, each once and in the order of the list. With the whole list for the part, every item that
-- can be played has its turn before one is opened again.
pub turns-front :
    (xs ys : List PlayItem) → turns (length (playable_of xs)) (xs ++ ys) ≡ playable_of xs
unfolding turns
turns-front [] ys = refl
turns-front (x ∷ xs) ys = elim (Bool-cases (is_playable x)) [
  | inl e ↦
      rw (e, notify_play-past [] (xs ++ ys) x refl e, append_assoc xs ys (x ∷ []))
        (ap (λ l. x ∷ l) (turns-front xs (ys ++ (x ∷ []))))
  | inr e ↦ rw e (elim (passed_over x xs ys e) [
    | inl nothing ↦ rw nothing refl
    | inr same ↦
        turns-same (length (playable_of xs)) (x ∷ (xs ++ ys)) (xs ++ (ys ++ (x ∷ []))) same
        ∙ turns-front xs (ys ++ (x ∷ []))
  ])
]
