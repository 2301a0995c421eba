-- ===== src/Dao/Keeps/Chats.antt =====
-- The operations of src/dao.rs on accounts and private messages keep what their statements keep.
use myx_im.Base.{ℕ, Option, none, some, List, [], String, arith}
use myx_im.Base.Int.{ℤ}
use myx_im.Db.Statement.{statement, or_default}
use myx_im.Db.Keeps.{Keeps, KeepsRows, statement-Keeps, >>=-Keeps, or_default-Keeps, read-Keeps}
use myx_im.Dao.Users.{save_user}
use myx_im.Dao.Chat
use myx_im.Dao.Chat.{
  persist_chat_message, mark_seen_from_peer, get_chat_history, get_unseen_messages,
  upsert_read_cursor, get_conversations, insert_unless_sent, insert_chat_message, sent_message_id,
  mark_seen, select_history, upsert_cursor,
}
use myx_im.Dao.Keeps.{limited-Keeps}
use myx_im.Db.{Db}
use myx_im.Dao.Keeps.Rows.{RowsKeep}

-- A private message of a user keeps what its two insertions keep.
module _ (P : Db → Type 0) (from_uid : ℕ)
    (kn : (now to_uid : ℕ) (content : String) (msg_type : ℕ)
      → KeepsRows P (insert_chat_message now from_uid to_uid content msg_type none))
    (kc : (now to_uid : ℕ) (content : String) (msg_type : ℕ) (cid : String)
      → KeepsRows P (insert_unless_sent now from_uid to_uid content msg_type cid)) where
  pub persist_chat_message-Keeps :
      (now to_uid : ℕ) (content : String) (msg_type : ℕ) (cid : Option String)
      → Keeps P (persist_chat_message now from_uid to_uid content msg_type cid)
  unfolding persist_chat_message
  persist_chat_message-Keeps now to_uid content msg_type (some cid) p =
      >>=-Keeps P (statement (insert_unless_sent now from_uid to_uid content msg_type cid))
        (Chat.reuse_sent cid) (statement-Keeps P _ (kc now to_uid content msg_type cid)) reuse p
    where
      reuse : (inserted : Option ℕ) → Keeps P (Chat.reuse_sent cid inserted)
      reuse (some id) q v = v
      reuse none q v = read-Keeps P (sent_message_id cid) (λ db. ground arith) q v
  persist_chat_message-Keeps now to_uid content msg_type none p =
      statement-Keeps P _ (kn now to_uid content msg_type) p

module _ (P : Db → Type 0) (k : RowsKeep P) where
  pub save_user-Keeps : (now uid : ℕ) (name hash : String) → Keeps P (save_user now uid name hash)
  unfolding save_user
  save_user-Keeps now uid name hash = statement-Keeps P _ (k.insert_user-Keeps now uid name hash)

  pub mark_seen_from_peer-Keeps : (a b : ℕ) → Keeps P (mark_seen_from_peer a b)
  unfolding mark_seen_from_peer
  mark_seen_from_peer-Keeps a b = statement-Keeps P _ (k.mark_seen-Keeps a b)

  pub get_chat_history-Keeps :
      (a b : ℕ) (before : Option ℤ) (limit : ℤ) → Keeps P (get_chat_history a b before limit)
  unfolding get_chat_history
  get_chat_history-Keeps a b before limit =
      >>=-Keeps P (or_default [] (statement (mark_seen b a))) _
        (or_default-Keeps {A = List ℕ} P [] (statement (mark_seen b a))
          (statement-Keeps P (mark_seen b a) (k.mark_seen-Keeps b a)))
        (λ ids.
          >>=-Keeps P (statement (select_history a b before limit)) _ (limited-Keeps P limit _)
            (λ _ q v. v))
