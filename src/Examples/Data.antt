-- ===== src/Examples/Data.antt =====
-- Messages, sessions and managers on which the theorems are tried.
use ad_manager.Base.{
  ◌≡◌, refl, true, false, none, some, [], ◌∷◌, arith, length, pos, to_u64, to_i64,
}
use ad_manager.Wire.{text}
use ad_manager.Message.Types.{Message, empty, Codec}
use ad_manager.Message.Sizes.{IsWritable}
use ad_manager.Message.Laws.{parse-serialize}
use ad_manager.Message.Generated.{serialize}
use ad_manager.Session.Frames.{numbered_body}
use ad_manager.Message.Instance.{codec}
use ad_manager.Session.Types.{Session, RequestCtx, ErrorCode, Hook}
use ad_manager.Examples.Varint.{runtime, runtime-IsRuntime, all_ascii, varint, varint_fuel}

abbrev pub wire : Codec
wire = codec runtime runtime-IsRuntime

abbrev pub asking : Message
asking = record empty { method = text "getAdFile"; content = 7 ∷ 0 ∷ 0 ∷ 0 ∷ [] }

abbrev pub answer : Message
answer = record empty { method = text "getAdFile"; content = 1 ∷ 2 ∷ 3 ∷ [] }

pub asking-IsWritable : IsWritable runtime asking
unfolding runtime all_ascii
asking-IsWritable = record {
  id_range = omega arith;
  code_range = omega arith;
  method_utf8 = refl;
  return_msg_utf8 = refl;
  method_size = omega arith;
  content_size = omega arith;
  return_msg_size = omega arith;
}

pub answer-IsWritable : IsWritable runtime answer
unfolding runtime all_ascii
answer-IsWritable = record {
  id_range = omega arith;
  code_range = omega arith;
  method_utf8 = refl;
  return_msg_utf8 = refl;
  method_size = omega arith;
  content_size = omega arith;
  return_msg_size = omega arith;
}

abbrev pub reset : ErrorCode
reset = record { value = pos 10054; message = text "reset" }

abbrev pub request_1 : RequestCtx
request_1 = record { msg_id = 1; method = text "getAdFile"; req_time = 0; prom = 40 }

abbrev pub request_2 : RequestCtx
request_2 = record { msg_id = 2; method = text "getAdFile"; req_time = 0; prom = 41 }

-- A client's session with two requests outstanding.
abbrev pub waiting : Session
waiting = record {
  msg_id = 3;
  requests = request_1 ∷ request_2 ∷ [];
  recv_buf = [];
  msg_queue = (1 ∷ [], none) ∷ [];
  socket_open = true;
  is_connected = true;
  after_net_error = none;
  request_handler = false;
}

-- A session of a server.
abbrev pub serving : Session
serving = record {
  msg_id = 1;
  requests = [];
  recv_buf = [];
  msg_queue = [];
  socket_open = true;
  is_connected = true;
  after_net_error = some Hook.leave_pool;
  request_handler = true;
}

abbrev pub answer_2 : Message
answer_2 = record answer { id = pos 2 }

pub answer_2-IsWritable : IsWritable runtime answer_2
unfolding runtime all_ascii
answer_2-IsWritable = record {
  id_range = omega arith;
  code_range = omega arith;
  method_utf8 = refl;
  return_msg_utf8 = refl;
  method_size = omega arith;
  content_size = omega arith;
  return_msg_size = omega arith;
}

pub asking-Accepts : wire.Accepts asking
unfolding codec
asking-Accepts = asking-IsWritable

pub answer-Accepts : wire.Accepts answer
unfolding codec
answer-Accepts = answer-IsWritable

pub answer_2-parsed : wire.parse (wire.serialize answer_2) ≡ some answer_2
unfolding codec
answer_2-parsed = parse-serialize runtime runtime-IsRuntime answer_2 answer_2-IsWritable

pub asking-size : length (wire.serialize asking) ≡ 17
unfolding codec serialize runtime varint varint_fuel to_u64
asking-size = refl

pub numbered_answer-size : length (numbered_body wire 1 answer) ≡ 18
unfolding codec serialize runtime varint varint_fuel to_u64 to_i64
numbered_answer-size = refl
