-- ===== src/Player/Messages.antt =====
-- The references that a player has acquired and released, and those that are with messages which it
-- has posted to its window and which have not been handled (player.cpp, Invoke and HandleEvent).
use ad_manager.Base.{ℕ, ◌+◌, ◌-◌, ◌≡◌, refl, Bool, true, ◌&&◌, List, [], ◌∷◌, arith, leb}
use ad_manager.Player.Com.{
  Effect, acquired, released, called, used, null_call, signalled, posted, slept, received,
}
use ad_manager.Player.References.{gains, losses, one}

-- How often a reference to the object was acquired.
abbrev pub acquisitions : ℕ → List Effect → ℕ
acquisitions p [] = 0
acquisitions p (acquired n ∷ es) = one p n + acquisitions p es
acquisitions p (released n ∷ es) = acquisitions p es
acquisitions p (called a ∷ es) = acquisitions p es
acquisitions p (used a n ∷ es) = acquisitions p es
acquisitions p (null_call a ∷ es) = acquisitions p es
acquisitions p (signalled ∷ es) = acquisitions p es
acquisitions p (posted n ∷ es) = acquisitions p es
acquisitions p (received n ∷ es) = acquisitions p es
acquisitions p (slept ∷ es) = acquisitions p es

-- How often a reference to it was released.
abbrev pub releases : ℕ → List Effect → ℕ
releases p [] = 0
releases p (released n ∷ es) = one p n + releases p es
releases p (acquired n ∷ es) = releases p es
releases p (called a ∷ es) = releases p es
releases p (used a n ∷ es) = releases p es
releases p (null_call a ∷ es) = releases p es
releases p (signalled ∷ es) = releases p es
releases p (posted n ∷ es) = releases p es
releases p (received n ∷ es) = releases p es
releases p (slept ∷ es) = releases p es

-- How many messages with a reference to it were posted and have not come.
abbrev pub unhandled : ℕ → List Effect → ℕ
unhandled p [] = 0
unhandled p (posted n ∷ es) = one p n + unhandled p es
unhandled p (received n ∷ es) = unhandled p es - one p n
unhandled p (acquired n ∷ es) = unhandled p es
unhandled p (released n ∷ es) = unhandled p es
unhandled p (called a ∷ es) = unhandled p es
unhandled p (used a n ∷ es) = unhandled p es
unhandled p (null_call a ∷ es) = unhandled p es
unhandled p (signalled ∷ es) = unhandled p es
unhandled p (slept ∷ es) = unhandled p es

-- A message with the object comes only if one was posted and has not come.
abbrev pub are_posted : ℕ → List Effect → Bool
are_posted p [] = true
are_posted p (received n ∷ es) = leb (one p n) (unhandled p es) && are_posted p es
are_posted p (posted n ∷ es) = are_posted p es
are_posted p (acquired n ∷ es) = are_posted p es
are_posted p (released n ∷ es) = are_posted p es
are_posted p (called a ∷ es) = are_posted p es
are_posted p (used a n ∷ es) = are_posted p es
are_posted p (null_call a ∷ es) = are_posted p es
are_posted p (signalled ∷ es) = are_posted p es
are_posted p (slept ∷ es) = are_posted p es

unhandled-balance :
    (p : ℕ) (es : List Effect)
    → are_posted p es ≡ true
    → releases p es + unhandled p es + gains p es ≡ acquisitions p es + losses p es
unhandled-balance p [] h = refl
unhandled-balance p (received n ∷ es) h =
    let first : leb (one p n) (unhandled p es) ≡ true = ground arith in
    let more : are_posted p es ≡ true = ground arith in ground (arith, unhandled-balance p es more)
unhandled-balance p (posted n ∷ es) h = omega (arith, unhandled-balance p es h)
unhandled-balance p (acquired n ∷ es) h = omega (arith, unhandled-balance p es h)
unhandled-balance p (released n ∷ es) h = omega (arith, unhandled-balance p es h)
unhandled-balance p (called a ∷ es) h = unhandled-balance p es h
unhandled-balance p (used a n ∷ es) h = unhandled-balance p es h
unhandled-balance p (null_call a ∷ es) h = unhandled-balance p es h
unhandled-balance p (signalled ∷ es) h = unhandled-balance p es h
unhandled-balance p (slept ∷ es) h = unhandled-balance p es h

-- When nothing is held, what was acquired and not released is with messages that were not handled.
pub nothing_held :
    (p : ℕ) (es : List Effect)
    → are_posted p es ≡ true
    → gains p es ≡ losses p es
    → acquisitions p es ≡ releases p es + unhandled p es
nothing_held p es h even = omega (arith, unhandled-balance p es h)
