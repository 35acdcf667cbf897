-- ===== src/Message/Types.antt =====
-- The message that both ends exchange (ad/Message.proto, ad/Message.pb.h), and what the connection
-- code relies on of its serialiser.
use ad_manager.Base.{◌^◌, ◌<◌, ◌≡◌, Option, some, [], ◌++◌, ℤ, pos, negsuc}
use ad_manager.Wire.{Bytes}

pub record Message : Type 0 where
  pub id : ℤ
  pub method : Bytes
  pub content : Bytes
  pub return_code : ℤ
  pub return_msg : Bytes

-- `Message msg;`
abbrev pub empty : Message
empty = record { id = pos 0; method = []; content = []; return_code = pos 0; return_msg = [] }

abbrev pub IsInt64 : ℤ → Type 0
IsInt64 (pos n) = n < 2 ^ 63
IsInt64 (negsuc n) = n < 2 ^ 63

abbrev pub IsInt32 : ℤ → Type 0
IsInt32 (pos n) = n < 2 ^ 31
IsInt32 (negsuc n) = n < 2 ^ 31

-- The serialiser: its operations, what they accept, and the two laws that the program uses. A
-- message that is written can be read back; and the bytes of a message that has only a number,
-- followed by those of a message without one, read as the second with the first's number.
pub record Codec : Type 1 where
  pub Accepts : Message → Type 0
  pub serialize : Message → Bytes
  pub parse : Bytes → Option Message
  pub parse-serialize : (m : Message) → Accepts m → parse (serialize m) ≡ some m
  pub parse-append :
      (i : ℤ) (m : Message)
      → IsInt64 i
      → Accepts m
      → m.id ≡ pos 0
      → parse (serialize (record empty { id = i }) ++ serialize m) ≡ some (record m { id = i })
