-- ===== src/Dao/Integrity.antt =====
-- init.sql: what the keys and references of the tables demand of the rows.
pub mod Inserts
pub mod GroupInserts
pub mod Changes
pub mod Operations
use myx_im.Base.{ℕ, ◌<◌, ◌≡◌, Bool, true, false, ◌&&◌, Option, none, some, List, String, ◌==◌}
use myx_im.Base.Rows.{All}
use myx_im.Base.Unique.{Unique}
use myx_im.Model.{User}
use myx_im.Db.{
  Db, ChatMessage, ReadCursor, Group, Membership, GroupMessage, GroupReadCursor, Friend,
}
use myx_im.Dao.Select.{same_key}
use myx_im.Dao.Users.{has_user, named}
use myx_im.Dao.Friends.{is_pair}
use myx_im.Dao.Groups.{has_group, owns_name, is_membership}
use myx_im.Dao.GroupMessages.{cursor_of}

-- Two rows have the same text in a nullable unique column; nulls are not compared.
abbrev pub same_text : Option String → Option String → Bool
same_text k none = false
same_text k (some t) = same_key k t

abbrev pub UserRows : List User → Type 0
UserRows us = Unique (λ u v. v.id == u.id) us × Unique (λ u v. named u.username v) us

-- The ids come from a sequence that is past them.
abbrev pub ChatRows : ℕ → List ChatMessage → Type 0
ChatRows next ms =
    All (λ m. m.id < next) ms
    × Unique (λ m n. n.id == m.id) ms
    × Unique (λ m n. same_text n.client_msg_id m.client_msg_id) ms

abbrev pub same_cursor : ReadCursor → ReadCursor → Bool
same_cursor c d = d.user_id == c.user_id && d.peer_uid == c.peer_uid

abbrev pub GroupRows : List User → List Group → Type 0
GroupRows us gs =
    Unique (λ g h. h.id == g.id) gs
    × Unique (λ g h. owns_name g.owner_uid g.name h) gs
    × All (λ g. has_user g.owner_uid us ≡ true) gs

-- A row that refers to a group and to a user.
abbrev pub Belongs : List Group → List User → ℕ → ℕ → Type 0
Belongs gs us gid uid = (has_group gid gs ≡ true) × (has_user uid us ≡ true)

abbrev pub MemberRows : List Group → List User → List Membership → Type 0
MemberRows gs us ms =
    Unique (λ m n. is_membership m.group_id m.user_id n) ms
    × All (λ m. Belongs gs us m.group_id m.user_id) ms

abbrev pub MessageRows : List Group → List User → ℕ → List GroupMessage → Type 0
MessageRows gs us next ms =
    All (λ m. m.id < next) ms
    × Unique (λ m n. n.id == m.id) ms
    × Unique (λ m n. same_text n.client_msg_id m.client_msg_id) ms
    × All (λ m. Belongs gs us m.group_id m.from_uid) ms

abbrev pub ReadRows : List Group → List User → List GroupReadCursor → Type 0
ReadRows gs us cs =
    Unique (λ c d. cursor_of c.user_id c.group_id d) cs
    × All (λ c. Belongs gs us c.group_id c.user_id) cs

abbrev pub FriendRows : List User → List Friend → Type 0
FriendRows us fs =
    Unique (λ f e. is_pair f.user_id f.friend_id e) fs
    × All (λ f. (has_user f.user_id us ≡ true) × (has_user f.friend_id us ≡ true)) fs

-- Every primary key, unique column and reference of init.sql, and the sequences.
pub record IsIntact (db : Db) : Type 0 where
  pub user_rows : UserRows db.users
  pub chat_rows : ChatRows db.next_chat_id db.chat_messages
  pub cursor_rows : Unique same_cursor db.read_cursors
  pub group_rows : GroupRows db.users db.groups
  pub member_rows : MemberRows db.groups db.users db.members
  pub message_rows : MessageRows db.groups db.users db.next_group_msg_id db.group_messages
  pub read_rows : ReadRows db.groups db.users db.group_read_cursors
  pub friend_rows : FriendRows db.users db.friends

-- One table at a time.
module _ (db : Db) (v : IsIntact db) where
  pub with_chats :
      (next : ℕ) (ms : List ChatMessage)
      → ChatRows next ms
      → IsIntact (record db { chat_messages = ms; next_chat_id = next })
  with_chats next ms h = record {
    user_rows = v.user_rows;
    chat_rows = h;
    cursor_rows = v.cursor_rows;
    group_rows = v.group_rows;
    member_rows = v.member_rows;
    message_rows = v.message_rows;
    read_rows = v.read_rows;
    friend_rows = v.friend_rows;
  }

  pub with_cursors :
      (cs : List ReadCursor) → Unique same_cursor cs → IsIntact (record db { read_cursors = cs })
  with_cursors cs h = record {
    user_rows = v.user_rows;
    chat_rows = v.chat_rows;
    cursor_rows = h;
    group_rows = v.group_rows;
    member_rows = v.member_rows;
    message_rows = v.message_rows;
    read_rows = v.read_rows;
    friend_rows = v.friend_rows;
  }

  pub with_members :
      (ms : List Membership)
      → MemberRows db.groups db.users ms
      → IsIntact (record db { members = ms })
  with_members ms h = record {
    user_rows = v.user_rows;
    chat_rows = v.chat_rows;
    cursor_rows = v.cursor_rows;
    group_rows = v.group_rows;
    member_rows = h;
    message_rows = v.message_rows;
    read_rows = v.read_rows;
    friend_rows = v.friend_rows;
  }

  pub with_messages :
      (next : ℕ) (ms : List GroupMessage)
      → MessageRows db.groups db.users next ms
      → IsIntact (record db { group_messages = ms; next_group_msg_id = next })
  with_messages next ms h = record {
    user_rows = v.user_rows;
    chat_rows = v.chat_rows;
    cursor_rows = v.cursor_rows;
    group_rows = v.group_rows;
    member_rows = v.member_rows;
    message_rows = h;
    read_rows = v.read_rows;
    friend_rows = v.friend_rows;
  }

  pub with_reads :
      (cs : List GroupReadCursor)
      → ReadRows db.groups db.users cs
      → IsIntact (record db { group_read_cursors = cs })
  with_reads cs h = record {
    user_rows = v.user_rows;
    chat_rows = v.chat_rows;
    cursor_rows = v.cursor_rows;
    group_rows = v.group_rows;
    member_rows = v.member_rows;
    message_rows = v.message_rows;
    read_rows = h;
    friend_rows = v.friend_rows;
  }

  pub with_friends :
      (fs : List Friend) → FriendRows db.users fs → IsIntact (record db { friends = fs })
  with_friends fs h = record {
    user_rows = v.user_rows;
    chat_rows = v.chat_rows;
    cursor_rows = v.cursor_rows;
    group_rows = v.group_rows;
    member_rows = v.member_rows;
    message_rows = v.message_rows;
    read_rows = v.read_rows;
    friend_rows = h;
  }
