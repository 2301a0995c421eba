-- ===== src/Dao/Writes/Chats.antt =====
-- src/dao.rs: what becomes of a private message that is stored, whichever statements follow.
use myx_im.Base.{
  ℕ, suc, ◌<◌, ◌≡◌, refl, sym, String, Bool, true, not, ◌||◌, none, some, List, ◌∷◌, find?, any,
  ◌==◌, arith, subst, Bool-cases, inl, inr,
}
use myx_im.Base.Rows.{All, All-map, All-filter, All-update_where}
use myx_im.Base.Unique.{only_found, found-All}
use myx_im.Db.{Db, ChatMessage}
use myx_im.Db.Statement.{Sql}
use myx_im.Db.Keeps.{KeepsRows, untouched-Keeps}
use myx_im.Base.Outcome.{state_of}
use myx_im.Dao.Users.{insert_user}
use myx_im.Dao.Chat.{insert_unless_sent, mark_seen, unseen_from, see}
use myx_im.Dao.Select.{same_key}
use myx_im.Dao.Friends.{insert_friend}
use myx_im.Dao.Delete.{delete_account}
use myx_im.Dao.Groups.{insert_group, insert_owner, insert_member}
use myx_im.Dao.GroupMessages.{insert_group_message, insert_group_unless_sent}
use myx_im.Dao.GroupRead.{upsert_group_cursor}
use myx_im.Dao.Integrity.{IsIntact}
use myx_im.Dao.Keeps.Rows.{RowsKeep, both_rows-Keeps}
use myx_im.Dao.Writes.{Writes, Writes_keep}

-- The later row of a message: the same but for `seen`, which is set once and for all.
pub record Continues (m n : ChatMessage) : Type 0 where
  pub same_from : n.from_uid ≡ m.from_uid
  pub same_to : n.to_uid ≡ m.to_uid
  pub same_content : n.content ≡ m.content
  pub same_type : n.msg_type ≡ m.msg_type
  pub same_client_id : n.client_msg_id ≡ m.client_msg_id
  pub same_time : n.created_at ≡ m.created_at
  pub stays_seen : (not m.seen || n.seen) ≡ true

abbrev pub has_id : ℕ → ChatMessage → Bool
has_id id m = m.id == id

-- The rows with the id of the message continue it, and the sequence is past it.
abbrev KeepsMessage : ℕ → ChatMessage → ℕ × List ChatMessage → Type 0
KeepsMessage id m (next, ms) = (id < next) × All (λ n. has_id id n ≡ true → Continues m n) ms

abbrev chat_part : Db → ℕ × List ChatMessage
chat_part db = (db.next_chat_id, db.chat_messages)

Continues-refl : (m : ChatMessage) → Continues m m
Continues-refl m = record {
  same_from = refl;
  same_to = refl;
  same_content = refl;
  same_type = refl;
  same_client_id = refl;
  same_time = refl;
  stays_seen = ground arith;
}

Continues-see : (m n : ChatMessage) → Continues m n → Continues m (see n)
Continues-see m n c = record {
  same_from = c.same_from;
  same_to = c.same_to;
  same_content = c.same_content;
  same_type = c.same_type;
  same_client_id = c.same_client_id;
  same_time = c.same_time;
  stays_seen = ground arith;
}

module _ (id : ℕ) (m : ChatMessage) where
  abbrev HasKept : Db → Type 0
  HasKept db = KeepsMessage id m (chat_part db)

  inserted :
      (n : ChatMessage) (next : ℕ) (ms : List ChatMessage)
      → n.id ≡ next
      → KeepsMessage id m (next, ms)
      → KeepsMessage id m (suc next, n ∷ ms)
  inserted n next ms e (l, h) = (omega arith, ((λ k. absurd (ground arith)), h))

  insert_unless_sent-HasKept :
      (now a b : ℕ) (content : String) (msg_type : ℕ) (cid : String)
      → KeepsRows HasKept (insert_unless_sent now a b content msg_type cid)
  insert_unless_sent-HasKept now a b content msg_type cid db v =
      elim (Bool-cases (any (λ n. same_key n.client_msg_id cid) db.chat_messages)) [
        | inl e ↦ rw e (omega (arith, v.0), v.1)
        | inr e ↦ rw e (inserted _ db.next_chat_id db.chat_messages refl v)
      ]

  mark_seen-HasKept : (a b : ℕ) → KeepsRows HasKept (mark_seen a b)
  mark_seen-HasKept a b db v = (
    v.0,
    All-update_where _ _ (unseen_from a b) see db.chat_messages
        (λ n h. elim (Bool-cases (unseen_from a b n)) [
          | inl e ↦ rw e (λ k. Continues-see m n (h k))
          | inr e ↦ rw e h
        ])
        v.1,
  )

  module _ {A : Type 0} where
    -- A statement that leaves the private messages alone.
    kept :
        (s : Sql A) → ((db : Db) → chat_part (state_of (s db)) ≡ chat_part db) → KeepsRows HasKept s
    kept = untouched-Keeps chat_part (KeepsMessage id m)

  HasKept-RowsKeep : RowsKeep HasKept
  HasKept-RowsKeep = record {
    insert_user-Keeps =
        λ now uid name hash. kept (insert_user now uid name hash) (λ db. ground arith);
    insert_chat_message-Keeps =
        λ now a b content msg_type db v. inserted _ db.next_chat_id db.chat_messages refl v;
    insert_unless_sent-Keeps = insert_unless_sent-HasKept;
    mark_seen-Keeps = mark_seen-HasKept;
    add_friend-Keeps =
        both_rows-Keeps HasKept (λ now a b. kept (insert_friend now a b) (λ db. ground arith));
    insert_group-Keeps =
        λ now gid name owner. kept (insert_group now gid name owner) (λ db. ground arith);
    insert_owner-Keeps = λ now gid uid. kept (insert_owner now gid uid) (λ db. ground arith);
    insert_member-Keeps = λ now gid uid. kept (insert_member now gid uid) (λ db. ground arith);
    delete_member-Keeps = λ gid uid db v. v;
    insert_group_message-Keeps = λ now gid uid content msg_type.
        kept (insert_group_message now gid uid content msg_type none) (λ db. ground arith);
    insert_group_unless_sent-Keeps = λ now gid uid content msg_type cid.
        kept (insert_group_unless_sent now gid uid content msg_type cid) (λ db. ground arith);
    upsert_group_cursor-Keeps =
        λ uid gid last. kept (upsert_group_cursor uid gid last) (λ db. ground arith);
    increment_reads-Keeps = λ gid old last uid db v. v;
    delete_chats-Keeps = λ uid db v. (v.0, All-filter _ _ db.chat_messages v.1);
    delete_group-Keeps = λ gid db v. v;
    delete_sent-Keeps = λ uid db v. v;
    delete_cursors-Keeps = λ uid db v. v;
    delete_account-Keeps = λ uid. kept (delete_account uid) (λ db. ground arith);
  }

-- A message that is found has an id that the sequence is past.
only_below :
    (id next : ℕ) {m : ChatMessage} (ms : List ChatMessage)
    → All (λ n. n.id < next) ms
    → find? (has_id id) ms ≡ some m
    → id < next
only_below id next ms h f =
    found-All (λ n. id < next) (has_id id) ms (All-map _ _ ms (λ n l k. ground arith) h) f

-- In tables that meet the keys of init.sql, whatever writing statements of src/dao.rs follow, a
-- private message that is found by its id before and after has the same sender, recipient, content,
-- type, client id and time, and if it was seen it is still.
pub seen-Writes :
    {c d : Db} (id : ℕ) (m n : ChatMessage)
    → IsIntact c
    → find? (has_id id) c.chat_messages ≡ some m
    → Writes c d
    → find? (has_id id) d.chat_messages ≡ some n
    → Continues m n
seen-Writes {c} {d} id m n v f w g =
    let start : HasKept id m c = (
      only_below id c.next_chat_id c.chat_messages v.chat_rows.0 f,
      All-map _ _ c.chat_messages (λ x e k. subst (Continues m) (sym (e k)) (Continues-refl m))
          (only_found _ (has_id id) c.chat_messages (λ x y h k. ground arith) v.chat_rows.1 f),
    ) in
    found-All _ (has_id id) d.chat_messages
      (Writes_keep (HasKept id m) (HasKept-RowsKeep id m) start w).1 g
