-- ===== src/Router/Ws/Acks.antt =====
-- src/router.rs, "private_chat": what the acknowledgement says of the push.
use myx_im.Base.{ℕ, ◌≡◌, ◌≢◌, String, true, false, none, some, arith}
use myx_im.Db.{Db}
use myx_im.Db.Statement.{healthy}
use myx_im.Model.Wire.{PrivateChatReq}
use myx_im.State.{Online, OnlineUser, get, enqueue, send, send_to_user}
use myx_im.State.Delivery.{IsReachable, send_to_user-reachable}
use myx_im.Dao.Chat.{persist_chat_message}
use myx_im.Router.App.{Json, parsed, frame}
use myx_im.Router.Ws.{private_chat, push_of}

module _ {V : Type 0} (json : Json V) (uid tx now send_time seq : ℕ) (payload : V)
    (req : PrivateChatReq) (db : Db) (online : Online)
    (is_req : json.private_chat_req payload ≡ parsed req) (no_key : req.client_msg_id ≡ none)
    (receiving : (online.channels tx).open_ ≡ true) where
  -- Where the recipient has a reachable connection other than the sender's, the push is put at the
  -- end of its queue, and the sender is told the id of the new message and that it was delivered.
  -- The client gave no id, no statement fails, both texts can be written, and the sender's own
  -- channel has its receiver.
  private_chat-delivered :
      (o : OnlineUser) (body ack : String)
      → IsReachable req.to_uid o online
      → o.tx ≢ tx
      → json.private_push (push_of uid send_time req) ≡ some body
      → json.private_chat_ack
          (record { msg_id = db.next_chat_id; send_time = send_time; delivered = true })
        ≡ some ack
      → let after =
          private_chat json uid tx now send_time seq payload
            (record { pool = healthy db; online = online }) in
        (after.online.channels o.tx
          ≡ enqueue (frame "private_push" seq body) (online.channels o.tx))
        × (after.online.channels tx
            ≡ enqueue (frame "private_chat_ack" seq ack) (online.channels tx))
  unfolding private_chat persist_chat_message send
  private_chat-delivered o body ack r ne b a =
      let e = send_to_user-reachable req.to_uid (frame "private_push" seq body) online o r in
      (ground arith, ground arith)

  -- Where the recipient is not online the sender is told that the message was not delivered, and no
  -- other channel changes. The client gave no id, no statement fails, both texts can be written, and
  -- the sender's own channel has its receiver.
  private_chat-undelivered :
      (body ack : String)
      → get req.to_uid online.online_users ≡ none
      → json.private_push (push_of uid send_time req) ≡ some body
      → json.private_chat_ack
          (record { msg_id = db.next_chat_id; send_time = send_time; delivered = false })
        ≡ some ack
      → let after =
          private_chat json uid tx now send_time seq payload
            (record { pool = healthy db; online = online }) in
        (after.online.channels tx ≡ enqueue (frame "private_chat_ack" seq ack) (online.channels tx))
        × ((i : ℕ) → i ≢ tx → after.online.channels i ≡ online.channels i)
  unfolding private_chat persist_chat_message send send_to_user
  private_chat-undelivered body ack off b a = (ground arith, λ i ne. ground arith)
