-- ===== src/Db.antt =====
-- init.sql: the tables of the database, each as the list of its rows, newest first, and what a
-- statement of src/dao.rs does with a connection that may fail. A `BIGSERIAL` column is the counter
-- of the next id; the ids start at 1.
pub mod Statement
pub mod Keeps
pub mod Inversion
use myx_im.Base.{ℕ, String, Bool, Option, List}
use myx_im.Model.{Uuid, Time, User}

pub record ChatMessage : Type 0 where
  pub id : ℕ
  pub from_uid : Uuid
  pub to_uid : Uuid
  pub content : String
  pub msg_type : ℕ
  pub seen : Bool
  pub client_msg_id : Option String
  pub created_at : Time

pub record ReadCursor : Type 0 where
  pub user_id : Uuid
  pub peer_uid : Uuid
  pub last_read_msg_id : ℕ

pub record Group : Type 0 where
  pub id : Uuid
  pub name : String
  pub owner_uid : Uuid
  pub created_at : Time

pub record Membership : Type 0 where
  pub group_id : Uuid
  pub user_id : Uuid
  pub joined_at : Time

pub record GroupMessage : Type 0 where
  pub id : ℕ
  pub group_id : Uuid
  pub from_uid : Uuid
  pub content : String
  pub msg_type : ℕ
  pub client_msg_id : Option String
  pub read_count : ℕ
  pub created_at : Time

pub record GroupReadCursor : Type 0 where
  pub user_id : Uuid
  pub group_id : Uuid
  pub last_read_msg_id : ℕ

pub record Friend : Type 0 where
  pub user_id : Uuid
  pub friend_id : Uuid
  pub created_at : Time

pub record Db : Type 0 where
  pub users : List User
  pub chat_messages : List ChatMessage
  pub next_chat_id : ℕ
  pub read_cursors : List ReadCursor
  pub groups : List Group
  pub members : List Membership
  pub group_messages : List GroupMessage
  pub next_group_msg_id : ℕ
  pub group_read_cursors : List GroupReadCursor
  pub friends : List Friend
