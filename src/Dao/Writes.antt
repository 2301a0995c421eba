-- ===== src/Dao/Writes.antt =====
-- src/dao.rs, statement by statement: what the database becomes when the writing statements of any
-- number of operations follow one another, in whatever order and with whatever arguments.
pub mod Tables
pub mod Chats
pub mod GroupChats
pub mod Kept
use myx_im.Base.{ℕ, String, Option, none, List}
use myx_im.Base.Outcome.{state_of}
use myx_im.Db.{Db}
use myx_im.Dao.Users.{insert_user}
use myx_im.Dao.Chat.{insert_chat_message, insert_unless_sent, mark_seen}
use myx_im.Dao.Friends.{add_friend}
use myx_im.Dao.Groups.{insert_group, insert_owner, insert_member, delete_member}
use myx_im.Dao.GroupMessages.{insert_group_message, insert_group_unless_sent}
use myx_im.Dao.GroupRead.{upsert_group_cursor, increment_reads}
use myx_im.Dao.Delete.{delete_chats, delete_group, delete_sent, delete_cursors, delete_account}
use myx_im.Dao.Keeps.Rows.{RowsKeep}

-- One statement that writes, or add_friend, whose statements are one transaction.
pub data Write (db : Db) : Db → Type 0 where
  inserts_user :
      (now uid : ℕ) (name hash : String) → Write db (state_of (insert_user now uid name hash db))
  inserts_chat_message :
      (now from_uid to_uid : ℕ) (content : String) (msg_type : ℕ)
      → Write db (state_of (insert_chat_message now from_uid to_uid content msg_type none db))
  inserts_unless_sent :
      (now from_uid to_uid : ℕ) (content : String) (msg_type : ℕ) (cid : String)
      → Write db (state_of (insert_unless_sent now from_uid to_uid content msg_type cid db))
  marks_seen : (a b : ℕ) → Write db (state_of (mark_seen a b db))
  befriends :
      (now a b : ℕ) (faults : List (Option String))
      → Write db (state_of (add_friend now a b (record { db = db; faults = faults }))).db
  inserts_group :
      (now gid : ℕ) (name : String) (owner : ℕ)
      → Write db (state_of (insert_group now gid name owner db))
  inserts_owner : (now gid uid : ℕ) → Write db (state_of (insert_owner now gid uid db))
  inserts_member : (now gid uid : ℕ) → Write db (state_of (insert_member now gid uid db))
  deletes_member : (gid uid : ℕ) → Write db (state_of (delete_member gid uid db))
  inserts_group_message :
      (now gid from_uid : ℕ) (content : String) (msg_type : ℕ)
      → Write db (state_of (insert_group_message now gid from_uid content msg_type none db))
  inserts_group_unless_sent :
      (now gid from_uid : ℕ) (content : String) (msg_type : ℕ) (cid : String)
      → Write db (state_of (insert_group_unless_sent now gid from_uid content msg_type cid db))
  upserts_group_cursor :
      (uid gid last : ℕ) → Write db (state_of (upsert_group_cursor uid gid last db))
  increments_reads :
      (gid old last uid : ℕ) → Write db (state_of (increment_reads gid old last uid db))
  deletes_chats : (uid : ℕ) → Write db (state_of (delete_chats uid db))
  deletes_group : (gid : ℕ) → Write db (state_of (delete_group gid db))
  deletes_sent : (uid : ℕ) → Write db (state_of (delete_sent uid db))
  deletes_cursors : (uid : ℕ) → Write db (state_of (delete_cursors uid db))
  deletes_account : (uid : ℕ) → Write db (state_of (delete_account uid db))

-- Statements of any operations, one after the other.
pub data Writes (db : Db) : Db → Type 0 where
  here : Writes db db
  then_write : {c d : Db} → Writes db c → Write c d → Writes db d

-- What each statement keeps a sequence of them keeps.
Write_keeps : (P : Db → Type 0) (k : RowsKeep P) {c d : Db} → P c → Write c d → P d
Write_keeps P k {c} v (inserts_user now uid name hash) = k.insert_user-Keeps now uid name hash c v
Write_keeps P k {c} v (inserts_chat_message now a b content msg_type) =
    k.insert_chat_message-Keeps now a b content msg_type c v
Write_keeps P k {c} v (inserts_unless_sent now a b content msg_type cid) =
    k.insert_unless_sent-Keeps now a b content msg_type cid c v
Write_keeps P k {c} v (marks_seen a b) = k.mark_seen-Keeps a b c v
Write_keeps P k {c} v (befriends now a b faults) =
    k.add_friend-Keeps now a b (record { db = c; faults = faults }) v
Write_keeps P k {c} v (inserts_group now gid name owner) =
    k.insert_group-Keeps now gid name owner c v
Write_keeps P k {c} v (inserts_owner now gid uid) = k.insert_owner-Keeps now gid uid c v
Write_keeps P k {c} v (inserts_member now gid uid) = k.insert_member-Keeps now gid uid c v
Write_keeps P k {c} v (deletes_member gid uid) = k.delete_member-Keeps gid uid c v
Write_keeps P k {c} v (inserts_group_message now gid uid content msg_type) =
    k.insert_group_message-Keeps now gid uid content msg_type c v
Write_keeps P k {c} v (inserts_group_unless_sent now gid uid content msg_type cid) =
    k.insert_group_unless_sent-Keeps now gid uid content msg_type cid c v
Write_keeps P k {c} v (upserts_group_cursor uid gid last) =
    k.upsert_group_cursor-Keeps uid gid last c v
Write_keeps P k {c} v (increments_reads gid old last uid) =
    k.increment_reads-Keeps gid old last uid c v
Write_keeps P k {c} v (deletes_chats uid) = k.delete_chats-Keeps uid c v
Write_keeps P k {c} v (deletes_group gid) = k.delete_group-Keeps gid c v
Write_keeps P k {c} v (deletes_sent uid) = k.delete_sent-Keeps uid c v
Write_keeps P k {c} v (deletes_cursors uid) = k.delete_cursors-Keeps uid c v
Write_keeps P k {c} v (deletes_account uid) = k.delete_account-Keeps uid c v

pub Writes_keep : (P : Db → Type 0) (k : RowsKeep P) {c d : Db} → P c → Writes c d → P d
Writes_keep P k v here = v
Writes_keep P k v (then_write r w) = Write_keeps P k (Writes_keep P k v r) w

-- Whatever the statements have made of the database, one more is one more.
pub Writes-RowsKeep : (db : Db) → RowsKeep (Writes db)
Writes-RowsKeep db = record {
  insert_user-Keeps = λ now uid name hash c r. then_write r (inserts_user now uid name hash);
  insert_chat_message-Keeps =
      λ now a b content msg_type c r. then_write r (inserts_chat_message now a b content msg_type);
  insert_unless_sent-Keeps = λ now a b content msg_type cid c r.
      then_write r (inserts_unless_sent now a b content msg_type cid);
  mark_seen-Keeps = λ a b c r. then_write r (marks_seen a b);
  add_friend-Keeps = λ now a b p r. then_write r (befriends now a b p.faults);
  insert_group-Keeps = λ now gid name owner c r. then_write r (inserts_group now gid name owner);
  insert_owner-Keeps = λ now gid uid c r. then_write r (inserts_owner now gid uid);
  insert_member-Keeps = λ now gid uid c r. then_write r (inserts_member now gid uid);
  delete_member-Keeps = λ gid uid c r. then_write r (deletes_member gid uid);
  insert_group_message-Keeps = λ now gid uid content msg_type c r.
      then_write r (inserts_group_message now gid uid content msg_type);
  insert_group_unless_sent-Keeps = λ now gid uid content msg_type cid c r.
      then_write r (inserts_group_unless_sent now gid uid content msg_type cid);
  upsert_group_cursor-Keeps = λ uid gid last c r. then_write r (upserts_group_cursor uid gid last);
  increment_reads-Keeps = λ gid old last uid c r. then_write r (increments_reads gid old last uid);
  delete_chats-Keeps = λ uid c r. then_write r (deletes_chats uid);
  delete_group-Keeps = λ gid c r. then_write r (deletes_group gid);
  delete_sent-Keeps = λ uid c r. then_write r (deletes_sent uid);
  delete_cursors-Keeps = λ uid c r. then_write r (deletes_cursors uid);
  delete_account-Keeps = λ uid c r. then_write r (deletes_account uid);
}
