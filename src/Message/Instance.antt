-- ===== src/Message/Instance.antt =====
-- The generated code is a serialiser of the kind that the connections need.
use ad_manager.Base.{◌≡◌, refl, ap, ◌∙◌, some, ◌++◌, arith, if◌then◌else◌, ℤ, pos, is_zero}
use ad_manager.Message.Types.{Message, empty, IsInt64, Codec}
use ad_manager.Message.Runtime.{Runtime, IsRuntime}
use ad_manager.Message.Generated.{merge_from, serialize, parse}
use ad_manager.Message.Sizes.{IsWritable}
use ad_manager.Message.Laws.{parse-serialize, parse-serialize_append, absent_number, absent_bytes}

number_kept : (i v : ℤ) → v ≡ pos 0 → (if is_zero v then i else v) ≡ i
number_kept i v e = rw e refl

merge_from-number :
    (i : ℤ) (m : Message)
    → m.id ≡ pos 0
    → merge_from (record empty { id = i }) m ≡ record m { id = i }
unfolding merge_from
merge_from-number i m e = λ k. record {
  id = number_kept i m.id e k;
  method = absent_bytes m.method k;
  content = absent_bytes m.content k;
  return_code = absent_number m.return_code k;
  return_msg = absent_bytes m.return_msg k;
}

module _ (r : Runtime) (laws : IsRuntime r) where
  number-IsWritable : (i : ℤ) → IsInt64 i → IsWritable r (record empty { id = i })
  number-IsWritable i h = record {
    id_range = h;
    code_range = omega arith;
    method_utf8 = laws.utf8_empty;
    return_msg_utf8 = laws.utf8_empty;
    method_size = omega arith;
    content_size = omega arith;
    return_msg_size = omega arith;
  }

  -- A message that has only a number, followed by a writable one without a number, reads as the second
  -- with that number.
  pub parse_numbered :
      (i : ℤ) (m : Message)
      → IsInt64 i
      → IsWritable r m
      → m.id ≡ pos 0
      → parse r (serialize r (record empty { id = i }) ++ serialize r m)
        ≡ some (record m { id = i })
  parse_numbered i m h w z =
      parse-serialize_append r laws (record empty { id = i }) m (number-IsWritable i h) w
      ∙ ap some (merge_from-number i m z)

  unfoldable pub codec : Codec
  codec = record {
    Accepts = IsWritable r;
    serialize = serialize r;
    parse = parse r;
    parse-serialize = parse-serialize r laws;
    parse-append = parse_numbered;
  }
