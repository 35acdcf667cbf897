-- ===== src/Manager/Handler.antt =====
-- AdManager::handleRequest and initResponseBuf: what the server answers.
use ad_manager.Base.{
  ℕ, Option, none, some, List, [], ◌∷◌, ◌++◌, leb, if◌then◌else◌, length, ℤ, pos, find,
}
use ad_manager.Wire.{Bytes, text, bytes_eq, word_at}
use ad_manager.Message.Types.{Message, empty, Codec}
use ad_manager.Manager.Types.{Manager}

abbrev pub error_method_handler_not_exist : ℤ
error_method_handler_not_exist = pos 1

abbrev pub error_data_not_exist : ℤ
error_data_not_exist = pos 2

-- What handleRequest gives to the session: one of the two forms of queueRspMsg, or nothing. A
-- content with fewer bytes than `memcpy` reads is a fault.
pub data Reply : Type 0 where
  reply_buffer : ℤ → Bytes → Reply
  reply_msg : Message → Reply
  no_reply : Reply
  fault : Reply

-- memcpy(&id, msg.content().c_str(), sizeof(id)): the text is followed by a zero byte.
unfoldable pub content_id : Bytes → Option ℕ
content_id content = if leb (length content) 2 then none else some (word_at (content ++ (0 ∷ [])))

abbrev pub ad_file_reply : Message → Option Bytes → Reply
ad_file_reply msg (some data') = reply_buffer msg.id data'
ad_file_reply msg none =
    reply_msg
      (record msg { return_code = error_data_not_exist; return_msg = text "AdFile not exist" })

abbrev pub on_ad_file : Message → List (ℕ × Bytes) → Option ℕ → Reply
on_ad_file msg images none = fault
on_ad_file msg images (some id) = ad_file_reply msg (find id images)

-- The number is read for the log alone.
abbrev pub on_ad : Option ℕ → Reply
on_ad none = fault
on_ad (some id) = no_reply

unfoldable pub handle_request : Manager → Message → Reply
unfolding content_id
handle_request a msg =
    if bytes_eq msg.method (text "getAdPlayPolicy")
    then reply_buffer msg.id a.buf_policy
    else if bytes_eq msg.method (text "getAdList")
    then reply_buffer msg.id a.buf_ad_list
    else if bytes_eq msg.method (text "getAd")
    then on_ad (content_id msg.content)
    else if bytes_eq msg.method (text "getAdFile")
    then on_ad_file msg a.buf_images (content_id msg.content)
    else reply_msg (record msg {
      return_code = error_method_handler_not_exist;
      return_msg = text "method handler not exist";
    })

module _ (codec : Codec) where
  open codec use {serialize}

  abbrev pub not_yet : Bytes → Bytes → Message
  not_yet method return_msg = record empty {
    method = method;
    return_code = error_data_not_exist;
    return_msg = return_msg;
  }

  unfoldable pub init_response_buf : Manager → Manager
  init_response_buf a = record a {
    buf_policy = serialize (not_yet (text "getAdPlayPolicy") (text "AdPlayPolicy not exist"));
    buf_ad_list = serialize (not_yet (text "getAdList") (text "AdList not exist"));
  }
