-- ===== src/Model.antt =====
-- src/model.rs: the rows, requests, pushes and answers that the server exchanges. A UUID is a
-- number below 2^128, of which only equality is used; times are numbers.
pub mod Wire
pub mod Requests
use myx_im.Base.{ℕ, String, Bool, Option, none, some}
use myx_im.Base.Int.{ℤ}

abbrev pub Uuid : Type 0
Uuid = ℕ

-- A timestamp of the database, in microseconds since the epoch.
abbrev pub Time : Type 0
Time = ℕ

pub record User : Type 0 where
  pub id : Uuid
  pub username : String
  pub password_hash : String
  pub created_at : Option Time

-- The unified response format.
pub record Res (T : Type 0) : Type 0 where
  pub code : ℕ
  pub msg : String
  pub data_ : Option T

abbrev pub success : {T : Type 0} → T → String → Res T
success d msg = record { code = 200; msg = msg; data_ = some d }

abbrev pub error : {T : Type 0} → ℕ → String → Res T
error code msg = record { code = code; msg = msg; data_ = none }

pub record FriendInfo : Type 0 where
  pub friend_id : Uuid
  pub username : String
  pub created_at : Option Time

-- Per-message read status within a group delivery update.
pub record GroupMsgReadStatus : Type 0 where
  pub msg_id : ℕ
  pub read : ℕ
  pub total : ℤ

pub record DeltaItem : Type 0 where
  pub msg_id : ℕ
  pub from_uid : Uuid
  pub read_count : ℕ
  pub total : ℤ

pub record GroupInfo : Type 0 where
  pub group_id : Uuid
  pub name : String
  pub owner_uid : Uuid
  pub owner_name : Option String
  pub member_count : ℕ
  pub created_at : Option Time

pub record GroupMember : Type 0 where
  pub user_id : Uuid
  pub username : String

pub record GroupHistoryItem : Type 0 where
  pub msg_id : ℕ
  pub group_id : Uuid
  pub from_uid : Uuid
  pub from_name : String
  pub content : String
  pub msg_type : ℕ
  pub send_time : ℕ
  pub read_count : ℕ
  pub total : ℤ

pub record ChatHistoryItem : Type 0 where
  pub msg_id : ℕ
  pub from_uid : Uuid
  pub to_uid : Uuid
  pub content : String
  pub msg_type : ℕ
  pub seen : Bool
  pub send_time : ℕ

pub record ConversationItem : Type 0 where
  pub peer_uid : Uuid
  pub peer_name : String
  pub last_msg : String
  pub last_msg_type : ℕ
  pub last_time : ℕ
  pub last_msg_id : ℕ

pub record UserSearchItem : Type 0 where
  pub id : Uuid
  pub username : String
