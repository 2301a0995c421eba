-- ===== src/Router/Ws/Private.antt =====
-- src/router.rs, "private_chat": a message is stored before it is pushed.
use text.Mathlib.TextPositions.{eq_refl}
use myx_im.Base.{ℕ, ◌≡◌, true, not, ◌&&◌, none, any, ◌==◌, same, arith}
use myx_im.Db.{Db}
use myx_im.Db.Statement.{healthy}
use myx_im.Model.Wire.{PrivateChatReq}
use myx_im.State.{Online}
use myx_im.Dao.Chat.{persist_chat_message}
use myx_im.Router.App.{Json, parsed}
use myx_im.Router.Ws.{private_chat}

-- A private message is stored as unseen, with its sender, recipient and content, whether or not the
-- recipient is online and whatever becomes of the push and of the acknowledgement. No statement
-- fails, and the client gave no id.
pub private_chat-kept :
    {V : Type 0} (json : Json V) (uid tx now send_time seq : ℕ) (payload : V) (req : PrivateChatReq)
    (db : Db) (online : Online)
    → json.private_chat_req payload ≡ parsed req
    → req.client_msg_id ≡ none
    → any
        (λ m.
          m.from_uid == uid && m.to_uid == req.to_uid && not m.seen && same m.content req.content)
        (private_chat json uid tx now send_time seq payload
          (record { pool = healthy db; online = online })).pool.db.chat_messages
      ≡ true
unfolding private_chat persist_chat_message
private_chat-kept json uid tx now send_time seq payload req db online p c =
    ground (arith, eq_refl req.content)
