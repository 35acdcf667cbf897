-- ===== src/Message/Generated.antt =====
-- ad/Message.pb.cc: Clear, MergePartialFromCodedStream, SerializeWithCachedSizes, ByteSizeLong and
-- MergeFrom of the class Message.
use ad_manager.Base.{
  ℕ, zero, suc, ◌+◌, ◌%◌, Bool, ◌||◌, Option, none, some, [], ◌++◌, ◌==◌, if◌then◌else◌, length,
  is_empty, ℤ, pos, is_zero,
}
use ad_manager.Wire.{Bytes}
use ad_manager.Message.Types.{Message, empty}
use ad_manager.Message.Runtime.{Runtime}

-- How MergePartialFromCodedStream ends: it stops at a tag 0 or at an end-group tag, and tells
-- whether that was the end of the input; it fails; or the fuel of the model has run out.
pub data Merged : Type 0 where
  success : Message → Bool → Merged
  failure : Merged
  out_of_fuel : Merged

-- Message::Clear.
abbrev pub clear : Message → Message
clear m = record m { id = pos 0; method = []; content = []; return_code = pos 0; return_msg = [] }

-- Message::MergeFrom: a field of `b` that does not have its default value replaces that of `a`.
unfoldable pub merge_from : Message → Message → Message
merge_from a b = record {
  id = if is_zero b.id then a.id else b.id;
  method = if is_empty b.method then a.method else b.method;
  content = if is_empty b.content then a.content else b.content;
  return_code = if is_zero b.return_code then a.return_code else b.return_code;
  return_msg = if is_empty b.return_msg then a.return_msg else b.return_msg;
}

-- GetTagWireType(tag) == WIRETYPE_END_GROUP.
abbrev pub is_end_group : ℕ → Bool
is_end_group tag = tag % 8 == 4

-- What one round of the loop leads to: the next round, or an end.
pub data Round : Type 0 where
  again : Message → Bytes → Round
  stop : Message → Bool → Round
  fail : Round

-- ParseFromArray, ParseFromString: the message is cleared, and the whole input is to be read.
abbrev pub parsed : Merged → Option Message
parsed (success m at_end) = if at_end then some m else none
parsed failure = none
parsed out_of_fuel = none

module _ (r : Runtime) where
  open r use {
    write_tag, write_int64, write_int32, write_string, read_tag, read_int64, read_int32,
    read_string, skip_field, verify_utf8, int64_size, int32_size, string_size,
  }

  abbrev pub int64_field : ℕ → ℤ → Bytes
  int64_field tag v = if is_zero v then [] else write_tag tag ++ write_int64 v

  abbrev pub int32_field : ℕ → ℤ → Bytes
  int32_field tag v = if is_zero v then [] else write_tag tag ++ write_int32 v

  abbrev pub string_field : ℕ → Bytes → Bytes
  string_field tag v = if is_empty v then [] else write_tag tag ++ write_string v

  -- SerializeWithCachedSizes. A text that is not UTF-8 is reported, and written all the same.
  unfoldable pub serialize : Message → Bytes
  serialize m =
      int64_field 8 m.id
      ++ (string_field 18 m.method
          ++ (string_field 26 m.content
              ++ (int32_field 32 m.return_code ++ string_field 42 m.return_msg)))

  -- ByteSizeLong.
  unfoldable pub byte_size_long : Message → ℕ
  byte_size_long m =
      (if is_empty m.method then 0 else 1 + string_size m.method)
      + (if is_empty m.content then 0 else 1 + string_size m.content)
      + (if is_empty m.return_msg then 0 else 1 + string_size m.return_msg)
      + (if is_zero m.id then 0 else 1 + int64_size m.id)
      + (if is_zero m.return_code then 0 else 1 + int32_size m.return_code)

  abbrev pub on_id : Message → Option (ℤ × Bytes) → Round
  on_id m none = fail
  on_id m (some (v, rest)) = again (record m { id = v }) rest

  abbrev pub on_return_code : Message → Option (ℤ × Bytes) → Round
  on_return_code m none = fail
  on_return_code m (some (v, rest)) = again (record m { return_code = v }) rest

  abbrev pub on_method : Message → Option (Bytes × Bytes) → Round
  on_method m none = fail
  on_method m (some (v, rest)) =
      if verify_utf8 v then again (record m { method = v }) rest else fail

  abbrev pub on_return_msg : Message → Option (Bytes × Bytes) → Round
  on_return_msg m none = fail
  on_return_msg m (some (v, rest)) =
      if verify_utf8 v then again (record m { return_msg = v }) rest else fail

  abbrev pub on_content : Message → Option (Bytes × Bytes) → Round
  on_content m none = fail
  on_content m (some (v, rest)) = again (record m { content = v }) rest

  abbrev pub on_skip : Message → Option Bytes → Round
  on_skip m none = fail
  on_skip m (some rest) = again m rest

  -- The part of the round behind the label handle_unusual.
  abbrev pub unusual : ℕ → Message → Bool → Bytes → Round
  unusual tag m at_end rest =
      if tag == 0 || is_end_group tag then stop m at_end else on_skip m (skip_field tag rest)

  -- The switch. A case is taken by its field number and left for handle_unusual unless the tag is
  -- the expected one, so the tag alone decides.
  abbrev pub on_tag : ℕ → Message → Bool → Bytes → Round
  on_tag tag m at_end rest =
      if tag == 8
      then on_id m (read_int64 rest)
      else if tag == 18
      then on_method m (read_string rest)
      else if tag == 26
      then on_content m (read_string rest)
      else if tag == 32
      then on_return_code m (read_int32 rest)
      else if tag == 42
      then on_return_msg m (read_string rest)
      else unusual tag m at_end rest

  unfoldable pub round : Message → Bytes → Round
  round m b = let (tag, rest) = read_tag b in on_tag tag m (is_empty b) rest

  -- MergePartialFromCodedStream.
  unfoldable pub merge_partial : ℕ → Message → Bytes → Merged
  merge_partial zero m b = out_of_fuel
  merge_partial (suc fuel) m b = elim (round m b) [
    | again m' rest ↦ merge_partial fuel m' rest
    | stop m' at_end ↦ success m' at_end
    | fail ↦ failure
  ]

  unfoldable pub parse : Bytes → Option Message
  unfolding merge_partial round
  parse b = parsed (merge_partial (suc (length b)) empty b)
