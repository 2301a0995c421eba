-- ===== src/Router/App.antt =====
-- The state that the handlers of src/router.rs share (AppState of src/state.rs), and what they take
-- from serde_json, as a parameter.
use myx_im.Base.{ℕ, String, Bool, Option}
use myx_im.Base.Outcome.{Outcome, ok, err}
use myx_im.Model.{Uuid}
use myx_im.Model.Wire.{
  WsMessage, MarkSeenReq, PrivateChatReq, PrivatePushMsg, PrivateChatAck, DeliveryUpdate,
  GroupChatReq, GroupChatAck, GroupDeliveryUpdate, GroupPushMsg,
}
use myx_im.Db.Statement.{Pool, Dao, DbError}
use myx_im.State.{Online, Frame, send, send_to_user}

pub record AppState : Type 0 where
  pub pool : Pool
  pub online : Online

pub data Parsed (A : Type 0) : Type 0 where
  parsed : A → Parsed A
  malformed : String → Parsed A

-- `from_str`, `from_value`, `Uuid::parse` and `to_string` of the crates, with the text of an error
-- where the program uses it. `group_id` is `data.get("group_id").and_then(|v| v.as_str())`.
pub record Json (V : Type 0) : Type 0 where
  pub message : String → Option (WsMessage V)
  pub mark_seen_req : V → Option MarkSeenReq
  pub private_chat_req : V → Parsed PrivateChatReq
  pub group_chat_req : V → Option GroupChatReq
  pub group_id : V → Option String
  pub uuid : String → Option Uuid
  pub private_push : PrivatePushMsg → Option String
  pub private_chat_ack : PrivateChatAck → Option String
  pub delivery_update : DeliveryUpdate → Option String
  pub group_chat_ack : GroupChatAck → Option String
  pub group_push : GroupPushMsg → Option String
  pub group_delivery_update : GroupDeliveryUpdate → Option String
  pub uuid_text : Uuid → String

-- A text `{"cmd":"…","seq":…,"data":…}`.
abbrev pub frame : String → ℕ → String → Frame
frame cmd seq body = record { cmd = cmd; seq = seq; body = body }

-- `state.send_to_user(uid, msg)`
abbrev pub push : Uuid → Frame → AppState → AppState
push uid msg s = record s { online = (send_to_user uid msg s.online).1 }

abbrev pub delivers : Uuid → Frame → AppState → Bool
delivers uid msg s = (send_to_user uid msg s.online).0

-- `let _ = tx.send(msg)` on the connection's own channel.
abbrev pub reply : ℕ → Frame → AppState → AppState
reply tx msg s = record s { online = (send tx msg s.online).1 }

abbrev pub continue {ℓ} :
    {A : Type 0} {B : Type ℓ}
    → AppState
    → Outcome Pool DbError A
    → (A → AppState → B)
    → (DbError → AppState → B)
    → B
continue s (ok a p) f g = f a (record s { pool = p })
continue s (err e p) f g = g e (record s { pool = p })

-- `match dao::…(&state.pg_pool, …).await { Ok(a) => …, Err(e) => … }`
abbrev pub query {ℓ} :
    {A : Type 0} {B : Type ℓ} → Dao A → (A → AppState → B) → (DbError → AppState → B) → AppState → B
query m f g s = continue s (m s.pool) f g
