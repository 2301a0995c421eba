-- ===== src/Model/Requests.antt =====
-- The bodies and query strings of src/model.rs that the HTTP handlers take, and that of the WebSocket
-- in src/router.rs.
use myx_im.Base.{String, Option}
use myx_im.Base.Int.{ℤ}
use myx_im.Model.{Uuid}

-- The `validate` attributes of these two are not modelled: nothing runs them.
pub record RegisterRequest : Type 0 where
  pub username : String
  pub password : String

pub record LoginRequest : Type 0 where
  pub username : String
  pub password : String

pub record AddFriendReq : Type 0 where
  pub token : String
  pub peer_uid : Uuid

pub record CreateGroupReq : Type 0 where
  pub token : String
  pub name : String

pub record GroupActionReq : Type 0 where
  pub token : String
  pub group_id : Uuid

pub record GroupQuery : Type 0 where
  pub token : String
  pub group_id : Uuid

pub record GroupHistoryQuery : Type 0 where
  pub token : String
  pub group_id : Uuid
  pub before : Option ℤ
  pub limit : Option ℤ

pub record HistoryQuery : Type 0 where
  pub token : String
  pub peer_uid : Uuid
  pub before : Option ℤ
  pub limit : Option ℤ

pub record TokenQuery : Type 0 where
  pub token : String

pub record DeleteRequest : Type 0 where
  pub token : String

pub record SearchQuery : Type 0 where
  pub token : String
  pub q : String
  pub limit : Option ℤ

pub record WsQuery : Type 0 where
  pub token : String
