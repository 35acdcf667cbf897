-- ===== src/Proto/Loop.antt =====
-- The loop that the generated MergePartialFromCodedStream of every class has (ad/AdPlayPolicy.pb.cc);
-- the classes differ in the cases of the switch.
use ad_manager.Base.{
  ℕ, zero, suc, Bool, ◌||◌, Option, none, some, ◌==◌, if◌then◌else◌, length, is_empty,
}
use ad_manager.Wire.{Bytes}
use ad_manager.Message.Runtime.{Runtime}
use ad_manager.Message.Generated.{is_end_group}

-- What the switch does with a tag: a case takes it and reads a value, which may fail; or it is left
-- for handle_unusual.
pub data Case (M : Type 0) : Type 0 where
  taken : Option (M × Bytes) → Case M
  untaken : Case M

-- What a round leads to.
pub data Turn (M : Type 0) : Type 0 where
  goes_on : M → Bytes → Turn M
  ends : M → Bool → Turn M
  breaks : Turn M

-- How the loop ends: at a tag 0 or an end-group tag, with whether that was the end of the input; with
-- a failure; or the fuel of the model has run out.
pub data Ending (M : Type 0) : Type 0 where
  done : M → Bool → Ending M
  refused : Ending M
  starved : Ending M

-- The whole input is to be read.
abbrev pub whole : {M : Type 0} → Ending M → Option M
whole (done m at_end) = if at_end then some m else none
whole refused = none
whole starved = none

module _ (r : Runtime) {M : Type 0} (switch : ℕ → M → Bytes → Case M) where
  open r use {read_tag, skip_field}

  abbrev pub skipped : M → Option Bytes → Turn M
  skipped m none = breaks
  skipped m (some rest) = goes_on m rest

  -- The label handle_unusual.
  abbrev pub handle_unusual : ℕ → M → Bool → Bytes → Turn M
  handle_unusual tag m at_end rest =
      if tag == 0 || is_end_group tag then ends m at_end else skipped m (skip_field tag rest)

  abbrev pub on_case : ℕ → M → Bool → Bytes → Case M → Turn M
  on_case tag m at_end rest (taken none) = breaks
  on_case tag m at_end rest (taken (some (n, left))) = goes_on n left
  on_case tag m at_end rest untaken = handle_unusual tag m at_end rest

  unfoldable pub turn : M → Bytes → Turn M
  turn m b = let (tag, rest) = read_tag b in on_case tag m (is_empty b) rest (switch tag m rest)

  unfoldable pub merge_loop : ℕ → M → Bytes → Ending M
  merge_loop zero m b = starved
  merge_loop (suc fuel) m b = elim (turn m b) [
    | goes_on n rest ↦ merge_loop fuel n rest
    | ends n at_end ↦ done n at_end
    | breaks ↦ refused
  ]

  -- ParseFromString and ParseFromArray, from a message that was cleared.
  abbrev pub parse_into : M → Bytes → Option M
  parse_into m b = whole (merge_loop (suc (length b)) m b)
