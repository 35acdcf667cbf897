-- ===== src/Manager/Relay.antt =====
-- What a client gets for what the server has stored: handleRequest, the serialised answers that the
-- server keeps, and the reader of the other end (AdManager.cpp, TcpSession.cpp).
use ad_manager.Base.{
  ℕ, ◌^◌, ◌<◌, ◌≡◌, refl, ap, Option, none, some, List, [], ◌∷◌, ◌++◌, arith, ℤ, find, insert,
  find-insert,
}
use ad_manager.Wire.{Bytes, word_bytes, bytes_eq}
use ad_manager.Message.Types.{Message, empty, Codec, IsInt64}
use ad_manager.Manager.Types.{Manager, Ad, Outside}
use ad_manager.Manager.Handler.{reply_buffer, handle_request, content_id, on_ad_file}
use ad_manager.Manager.Download.{store_server, file_message, file_request}
use ad_manager.Manager.Requests.{keep_ad_list, ad_list_message, ad_list_request, add_ads, add_ad}

content_id-word_bytes : (id : ℕ) → id < 2 ^ 32 → content_id (word_bytes id) ≡ some id
unfolding content_id
content_id-word_bytes id h = ap some (omega arith)

add_ads-buf :
    (o : Outside) (ads : List Ad) (a : Manager) → (add_ads o ads a).buf_ad_list ≡ a.buf_ad_list
unfolding add_ads
add_ads-buf o [] a = refl
add_ads-buf o (ad ∷ ads) a = add_ads-buf o ads (add_ad o ad a)

served :
    (id : ℕ) (buf : Bytes) (images : List (ℕ × Bytes)) (msg : Message)
    → id < 2 ^ 32
    → find id images ≡ none
    → msg.content ≡ word_bytes id
    → on_ad_file msg (insert id buf images) (content_id msg.content) ≡ reply_buffer msg.id buf
served id buf images msg w new e =
    rw (e, content_id-word_bytes id w, find-insert id id buf images, new) (ground arith)

module _ (codec : Codec) where
  -- What the other end reads when the buffer is sent under the number.
  abbrev pub read_back : ℤ → Bytes → Option Message
  read_back i buf = codec.parse (codec.serialize (record empty { id = i }) ++ buf)

  -- A file that the server stores under a number below 2^32 that had none is given to the client
  -- that asks for it: the request handler takes the stored answer, and the client reads from it,
  -- under the number of its request, a message with the file and no error.
  pub file_is_relayed :
      (o : Outside) (id : ℕ) (ad : Ad) (body : Bytes) (a : Manager) (i : ℤ)
      → id < 2 ^ 32
      → find id a.buf_images ≡ none
      → IsInt64 i
      → codec.Accepts (file_message body)
      → (handle_request (store_server codec o id ad body a) (record (file_request id) { id = i })
          ≡ reply_buffer i (codec.serialize (file_message body)))
        × (read_back i (codec.serialize (file_message body))
            ≡ some (record (file_message body) { id = i }))
  unfolding handle_request bytes_eq
  file_is_relayed o id ad body a i w new h ok = (
    served id (codec.serialize (file_message body)) a.buf_images
        (record (file_request id) { id = i }) w new refl,
    codec.parse-append i (file_message body) h ok refl,
  )

  -- The list of advertisements that the server has taken from the center is given to the client that
  -- asks for it, unchanged, under the number of its request and with no error.
  ad_list_is_relayed :
      (o : Outside) (content : Bytes) (ads : List Ad) (a : Manager) (i : ℤ)
      → IsInt64 i
      → codec.Accepts (ad_list_message content)
      → (handle_request (keep_ad_list codec o content ads a) (record ad_list_request { id = i })
          ≡ reply_buffer i (codec.serialize (ad_list_message content)))
        × (read_back i (codec.serialize (ad_list_message content))
            ≡ some (record (ad_list_message content) { id = i }))
  unfolding handle_request bytes_eq
  ad_list_is_relayed o content ads a i h ok = (
    ap (reply_buffer i) (add_ads-buf o ads _),
    codec.parse-append i (ad_list_message content) h ok refl,
  )
