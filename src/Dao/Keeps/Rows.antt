-- ===== src/Dao/Keeps/Rows.antt =====
-- What every statement of src/dao.rs that writes keeps.
use myx_im.Base.{ℕ, String, none}
use myx_im.Db.{Db}
use myx_im.Db.Keeps.{Keeps, KeepsRows, statement-Keeps, >>=-Keeps, transaction-Keeps}
use myx_im.Db.Statement.{statement}
use myx_im.Dao.Users.{insert_user}
use myx_im.Dao.Chat.{insert_chat_message, insert_unless_sent, mark_seen}
use myx_im.Dao.Friends.{add_friend, insert_friend}
use myx_im.Dao.Groups.{insert_group, insert_owner, insert_member, delete_member}
use myx_im.Dao.GroupMessages.{insert_group_message, insert_group_unless_sent}
use myx_im.Dao.GroupRead.{upsert_group_cursor, increment_reads}
use myx_im.Dao.Delete.{delete_chats, delete_group, delete_sent, delete_cursors, delete_account}

-- A property that each statement that writes keeps, and add_friend, whose two statements are one
-- transaction.
pub record RowsKeep (P : Db → Type 0) : Type 0 where
  pub insert_user-Keeps :
      (now uid : ℕ) (name hash : String) → KeepsRows P (insert_user now uid name hash)
  pub insert_chat_message-Keeps :
      (now from_uid to_uid : ℕ) (content : String) (msg_type : ℕ)
      → KeepsRows P (insert_chat_message now from_uid to_uid content msg_type none)
  pub insert_unless_sent-Keeps :
      (now from_uid to_uid : ℕ) (content : String) (msg_type : ℕ) (cid : String)
      → KeepsRows P (insert_unless_sent now from_uid to_uid content msg_type cid)
  pub mark_seen-Keeps : (a b : ℕ) → KeepsRows P (mark_seen a b)
  pub add_friend-Keeps : (now a b : ℕ) → Keeps P (add_friend now a b)
  pub insert_group-Keeps :
      (now gid : ℕ) (name : String) (owner : ℕ) → KeepsRows P (insert_group now gid name owner)
  pub insert_owner-Keeps : (now gid uid : ℕ) → KeepsRows P (insert_owner now gid uid)
  pub insert_member-Keeps : (now gid uid : ℕ) → KeepsRows P (insert_member now gid uid)
  pub delete_member-Keeps : (gid uid : ℕ) → KeepsRows P (delete_member gid uid)
  pub insert_group_message-Keeps :
      (now gid from_uid : ℕ) (content : String) (msg_type : ℕ)
      → KeepsRows P (insert_group_message now gid from_uid content msg_type none)
  pub insert_group_unless_sent-Keeps :
      (now gid from_uid : ℕ) (content : String) (msg_type : ℕ) (cid : String)
      → KeepsRows P (insert_group_unless_sent now gid from_uid content msg_type cid)
  pub upsert_group_cursor-Keeps :
      (uid gid last : ℕ) → KeepsRows P (upsert_group_cursor uid gid last)
  pub increment_reads-Keeps :
      (gid old last uid : ℕ) → KeepsRows P (increment_reads gid old last uid)
  pub delete_chats-Keeps : (uid : ℕ) → KeepsRows P (delete_chats uid)
  pub delete_group-Keeps : (gid : ℕ) → KeepsRows P (delete_group gid)
  pub delete_sent-Keeps : (uid : ℕ) → KeepsRows P (delete_sent uid)
  pub delete_cursors-Keeps : (uid : ℕ) → KeepsRows P (delete_cursors uid)
  pub delete_account-Keeps : (uid : ℕ) → KeepsRows P (delete_account uid)

-- What inserting one direction of a friendship keeps add_friend keeps.
pub both_rows-Keeps :
    (P : Db → Type 0)
    → ((now a b : ℕ) → KeepsRows P (insert_friend now a b))
    → (now a b : ℕ) → Keeps P (add_friend now a b)
unfolding add_friend
both_rows-Keeps P k now a b = transaction-Keeps P _ (
    >>=-Keeps P (statement (insert_friend now a b)) _ (statement-Keeps P _ (k now a b))
      (λ _. statement-Keeps P _ (k now b a)))
