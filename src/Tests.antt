-- ===== src/Tests.antt =====
-- A small database, its connections and the crates at work: the data of the tests.
mod GroupRead
mod Chat
mod Accounts
mod Sockets
mod Commands
mod Pushes
mod Races
mod Requests
mod Writes
mod Tables
mod Environment
use myx_im.Base.{ℕ, String, false, none, some, [], ◌∷◌, same}
use myx_im.Base.Int.{pos}
use myx_im.Model.{User}
use myx_im.Model.Wire.{PrivateChatReq, GroupChatReq}
use myx_im.Db.{Db, ChatMessage, Group, Membership, GroupMessage}
use myx_im.Jwt.{Config, Crypto}
use myx_im.Router.App.{Json, parsed}

abbrev pub account : ℕ → String → User
account id name = record { id = id; username = name; password_hash = "secret"; created_at = some 0 }

abbrev pub group_message : ℕ → ℕ → ℕ → GroupMessage
group_message id from_uid reads = record {
  id = id;
  group_id = 10;
  from_uid = from_uid;
  content = "hello";
  msg_type = 1;
  client_msg_id = none;
  read_count = reads;
  created_at = 5000000;
}

abbrev pub member : ℕ → Membership
member uid = record { group_id = 10; user_id = uid; joined_at = 0 }

abbrev pub greeting : ChatMessage
greeting = record {
  id = 1;
  from_uid = 1;
  to_uid = 2;
  content = "hi";
  msg_type = 1;
  seen = false;
  client_msg_id = some "a-1";
  created_at = 5000000;
}

abbrev pub team : Group
team = record { id = 10; name = "team"; owner_uid = 1; created_at = 0 }

-- Alice (1), Bob (2) and Carol (3) are members of group 10; Dave (4) is not. Carol has read the
-- first message.
abbrev pub db : Db
db = record {
  users = account 4 "dave" ∷ account 3 "carol" ∷ account 2 "bob" ∷ account 1 "alice" ∷ [];
  chat_messages = greeting ∷ [];
  next_chat_id = 2;
  read_cursors = [];
  groups = team ∷ [];
  members = member 3 ∷ member 2 ∷ member 1 ∷ [];
  group_messages = group_message 2 2 0 ∷ group_message 1 1 1 ∷ [];
  next_group_msg_id = 3;
  group_read_cursors = record { user_id = 3; group_id = 10; last_read_msg_id = 1 } ∷ [];
  friends = [];
}

abbrev pub config : Config
config = record { db_url = "postgres"; jwt_secret = "key"; jwt_expire = pos 3600 }

-- Crates for which every token is the same text, which is never accepted, and a hash the password.
abbrev pub crypto : Crypto
crypto = record {
  encode = λ secret c. some "token";
  decode = λ secret now token. none;
  hash = λ password. some password;
  verify = λ password hash. some (same password hash);
}

abbrev pub chat_req : PrivateChatReq
chat_req = record {
  to_uid = 2;
  content = "hi again";
  msg_type = 1;
  extra = none;
  client_msg_id = none;
  from_name = some "alice";
}

abbrev pub group_req : GroupChatReq
group_req = record {
  group_id = 10;
  content = "hello all";
  msg_type = 1;
  client_msg_id = none;
  from_name = some "alice";
}

-- Payloads are not looked at: every one is the same request.
abbrev pub json : Json ℕ
json = record {
  message = λ t. none;
  mark_seen_req = λ v. none;
  private_chat_req = λ v. parsed chat_req;
  group_chat_req = λ v. some group_req;
  group_id = λ v. none;
  uuid = λ t. none;
  private_push = λ m. some "push";
  private_chat_ack = λ m. some "ack";
  delivery_update = λ m. some "update";
  group_chat_ack = λ m. some "group ack";
  group_push = λ m. some "group push";
  group_delivery_update = λ m. some "group update";
  uuid_text = λ u. "uuid";
}
