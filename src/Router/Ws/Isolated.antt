-- ===== src/Router/Ws/Isolated.antt =====
-- src/router.rs, "private_chat": whose connections the command reaches.
use myx_im.Base.{ℕ, ◌≡◌, ◌≢◌, refl, ◌∙◌, String, Bool, Option, none, some, arith}
use myx_im.Base.Outcome.{Outcome, ok, err}
use myx_im.Model.Wire.{PrivateChatReq}
use myx_im.Db.Statement.{Pool, DbError}
use myx_im.State.{Frame, send}
use myx_im.Dao.Chat.{persist_chat_message}
use myx_im.Router.App.{AppState, Json, parsed, frame, reply, continue}
use myx_im.Router.Socket.{Server, start, Reach}
use myx_im.Router.Socket.Isolation.{Reach-isolated}
use myx_im.Router.Ws.{private_chat, push_of, push_json, reply_json, acknowledge, save_failed}

reply-other :
    (tx i : ℕ) (msg : Frame) (s : AppState)
    → i ≢ tx
    → (reply tx msg s).online.channels i ≡ s.online.channels i
unfolding send
reply-other tx i msg s ne = ground arith

reply_json-other :
    (tx i : ℕ) (cmd : String) (seq : ℕ) (body : Option String) (s : AppState)
    → i ≢ tx
    → (reply_json tx cmd seq body s).online.channels i ≡ s.online.channels i
reply_json-other tx i cmd seq none s ne = refl
reply_json-other tx i cmd seq (some body) s ne = reply-other tx i (frame cmd seq body) s ne

push_json-other :
    {s : Server} (i to : ℕ) (cmd : String) (seq : ℕ) (body : Option String) (p : Pool)
    → Reach start s
    → s.owner i ≢ to
    → (push_json to cmd seq body (record { pool = p; online = s.online })).1.online.channels i
      ≡ s.online.channels i
push_json-other i to cmd seq none p r other = refl
push_json-other i to cmd seq (some body) p r other =
    Reach-isolated to i (frame cmd seq body) r other

module _ {V : Type 0} (json : Json V) (uid tx now send_time seq : ℕ) where
  acknowledge-other :
      (i msg_id : ℕ) (r : Bool × AppState)
      → i ≢ tx
      → (acknowledge json uid tx seq send_time msg_id r).online.channels i ≡ r.1.online.channels i
  acknowledge-other i msg_id (delivered, s) ne =
      reply_json-other tx i "private_chat_ack" seq
        (json.private_chat_ack
          (record { msg_id = msg_id; send_time = send_time; delivered = delivered }))
        s ne

  -- In a reachable state a private message, whatever becomes of its statements, reaches no channel but
  -- that of its sender and those of connections of the recipient.
  pub private_chat-isolated :
      {s : Server} (i : ℕ) (payload : V) (req : PrivateChatReq) (p : Pool)
      → Reach start s
      → json.private_chat_req payload ≡ parsed req
      → i ≢ tx
      → s.owner i ≢ req.to_uid
      → (private_chat json uid tx now send_time seq payload
            (record { pool = p; online = s.online })).online.channels
          i
        ≡ s.online.channels i
  unfolding private_chat
  private_chat-isolated {s} i payload req p r e ne other = rw e (
      settled
        (persist_chat_message now uid req.to_uid req.content req.msg_type req.client_msg_id p))
    where
      settled :
          (o : Outcome Pool DbError ℕ)
          → (continue
                (record { pool = p; online = s.online })
                o
                (λ msg_id t. acknowledge json uid tx seq send_time msg_id (
                  push_json req.to_uid "private_push" seq
                    (json.private_push (push_of uid send_time req))
                    t))
                (λ err t. reply tx (save_failed seq) t)).online.channels
              i
            ≡ s.online.channels i
      settled (ok msg_id q) =
          let body = json.private_push (push_of uid send_time req) in
          acknowledge-other i msg_id
            (push_json req.to_uid "private_push" seq body (record { pool = q; online = s.online }))
            ne
          ∙ push_json-other i req.to_uid "private_push" seq body q r other
      settled (err x q) =
          reply-other tx i (save_failed seq) (record { pool = q; online = s.online }) ne
