-- ===== src/Model/Wire.antt =====
-- The messages of src/model.rs that travel on a WebSocket.
use myx_im.Base.{ℕ, String, Bool, Option, List}
use myx_im.Model.{Uuid, GroupMsgReadStatus}

-- The payload `data` is a JSON value of serde_json, of type `V`.
pub record WsMessage (V : Type 0) : Type 0 where
  pub cmd : String
  pub seq : ℕ
  pub payload : V

pub record MarkSeenReq : Type 0 where
  pub to_uid : Uuid

pub record PrivateChatReq : Type 0 where
  pub to_uid : Uuid
  pub content : String
  pub msg_type : ℕ
  pub extra : Option String
  pub client_msg_id : Option String
  pub from_name : Option String

pub record PrivatePushMsg : Type 0 where
  pub from_uid : Uuid
  pub from_name : String
  pub to_uid : Uuid
  pub content : String
  pub msg_type : ℕ
  pub send_time : ℕ

pub record PrivateChatAck : Type 0 where
  pub msg_id : ℕ
  pub send_time : ℕ
  pub delivered : Bool

pub record DeliveryUpdate : Type 0 where
  pub msg_ids : List ℕ
  pub to_uid : Uuid

pub record GroupChatReq : Type 0 where
  pub group_id : Uuid
  pub content : String
  pub msg_type : ℕ
  pub client_msg_id : Option String
  pub from_name : Option String

pub record GroupChatAck : Type 0 where
  pub msg_id : ℕ
  pub send_time : ℕ
  pub online_count : ℕ

pub record GroupDeliveryUpdate : Type 0 where
  pub group_id : Uuid
  pub msg_statuses : List GroupMsgReadStatus
  pub reader_uid : Uuid

pub record GroupPushMsg : Type 0 where
  pub group_id : Uuid
  pub from_uid : Uuid
  pub from_name : String
  pub content : String
  pub msg_type : ℕ
  pub send_time : ℕ
