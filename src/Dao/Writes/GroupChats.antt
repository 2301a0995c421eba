-- ===== src/Dao/Writes/GroupChats.antt =====
-- src/dao.rs: what becomes of a group message that is stored, whichever statements follow.
use myx_im.Base.{
  ℕ, suc, ◌<◌, ◌≤◌, ◌≡◌, refl, sym, String, Bool, true, Option, none, some, List, ◌∷◌, find?, any,
  ◌==◌, arith, subst, Bool-cases, inl, inr,
}
use myx_im.Base.Outcome.{state_of}
use myx_im.Base.Rows.{All, All-map, All-filter, All-update_where}
use myx_im.Base.Unique.{only_found, found-All}
use myx_im.Db.{Db, GroupMessage}
use myx_im.Db.Statement.{Sql}
use myx_im.Db.Keeps.{KeepsRows, untouched-Keeps}
use myx_im.Dao.Users.{insert_user}
use myx_im.Dao.Chat.{insert_unless_sent}
use myx_im.Dao.Friends.{insert_friend}
use myx_im.Dao.Delete.{delete_account}
use myx_im.Dao.Groups.{insert_group, insert_owner, insert_member, can_belong}
use myx_im.Dao.GroupMessages.{insert_group_message, insert_group_unless_sent, was_sent}
use myx_im.Dao.GroupRead.{upsert_group_cursor, increment_reads, in_delta, count_read}
use myx_im.Dao.Integrity.{IsIntact}
use myx_im.Dao.Keeps.Rows.{RowsKeep, both_rows-Keeps}
use myx_im.Dao.Writes.{Writes, Writes_keep}

-- The later row of a message: the same but for `read_count`, which has not fallen.
pub record Continues (m n : GroupMessage) : Type 0 where
  pub same_group : n.group_id ≡ m.group_id
  pub same_from : n.from_uid ≡ m.from_uid
  pub same_content : n.content ≡ m.content
  pub same_type : n.msg_type ≡ m.msg_type
  pub same_client_id : n.client_msg_id ≡ m.client_msg_id
  pub same_time : n.created_at ≡ m.created_at
  pub counts : m.read_count ≤ n.read_count

abbrev pub has_id : ℕ → GroupMessage → Bool
has_id id m = m.id == id

-- The rows with the id of the message continue it, and the sequence is past it.
abbrev KeepsMessage : ℕ → GroupMessage → ℕ × List GroupMessage → Type 0
KeepsMessage id m (next, ms) = (id < next) × All (λ n. has_id id n ≡ true → Continues m n) ms

abbrev group_part : Db → ℕ × List GroupMessage
group_part db = (db.next_group_msg_id, db.group_messages)

Continues-refl : (m : GroupMessage) → Continues m m
Continues-refl m = record {
  same_group = refl;
  same_from = refl;
  same_content = refl;
  same_type = refl;
  same_client_id = refl;
  same_time = refl;
  counts = omega arith;
}

Continues-count_read : (m n : GroupMessage) → Continues m n → Continues m (count_read n)
Continues-count_read m n c = record {
  same_group = c.same_group;
  same_from = c.same_from;
  same_content = c.same_content;
  same_type = c.same_type;
  same_client_id = c.same_client_id;
  same_time = c.same_time;
  counts = omega (arith, c.counts);
}

module _ (id : ℕ) (m : GroupMessage) where
  abbrev HasKept : Db → Type 0
  HasKept db = KeepsMessage id m (group_part db)

  inserted :
      (n : GroupMessage) (next : ℕ) (ms : List GroupMessage)
      → n.id ≡ next
      → KeepsMessage id m (next, ms)
      → KeepsMessage id m (suc next, n ∷ ms)
  inserted n next ms e (l, h) = (omega arith, ((λ k. absurd (ground arith)), h))

  insert_group_message-HasKept :
      (now gid uid : ℕ) (content : String) (msg_type : ℕ) (cid : Option String)
      → KeepsRows HasKept (insert_group_message now gid uid content msg_type cid)
  insert_group_message-HasKept now gid uid content msg_type cid db v =
      elim (Bool-cases (can_belong gid uid db)) [
        | inl e ↦ rw e (inserted _ db.next_group_msg_id db.group_messages refl v)
        | inr e ↦ rw e (omega (arith, v.0), v.1)
      ]

  insert_group_unless_sent-HasKept :
      (now gid uid : ℕ) (content : String) (msg_type : ℕ) (cid : String)
      → KeepsRows HasKept (insert_group_unless_sent now gid uid content msg_type cid)
  insert_group_unless_sent-HasKept now gid uid content msg_type cid db v =
      elim (Bool-cases (any (was_sent cid) db.group_messages)) [
        | inl e ↦ rw e (omega (arith, v.0), v.1)
        | inr e ↦ elim (Bool-cases (can_belong gid uid db)) [
          | inl b ↦ rw (e, b) (inserted _ db.next_group_msg_id db.group_messages refl v)
          | inr b ↦ rw (e, b) (omega (arith, v.0), v.1)
        ]
      ]

  increment_reads-HasKept :
      (gid old last uid : ℕ) → KeepsRows HasKept (increment_reads gid old last uid)
  increment_reads-HasKept gid old last uid db v = (
    v.0,
    All-update_where _ _ (in_delta gid old last uid) count_read db.group_messages
        (λ n h. elim (Bool-cases (in_delta gid old last uid n)) [
          | inl e ↦ rw e (λ k. Continues-count_read m n (h k))
          | inr e ↦ rw e h
        ])
        v.1,
  )

  module _ {A : Type 0} where
    -- A statement that leaves the group messages alone.
    kept :
        (s : Sql A)
        → ((db : Db) → group_part (state_of (s db)) ≡ group_part db)
        → KeepsRows HasKept s
    kept = untouched-Keeps group_part (KeepsMessage id m)

  HasKept-RowsKeep : RowsKeep HasKept
  HasKept-RowsKeep = record {
    insert_user-Keeps =
        λ now uid name hash. kept (insert_user now uid name hash) (λ db. ground arith);
    insert_chat_message-Keeps = λ now a b content msg_type db v. v;
    insert_unless_sent-Keeps = λ now a b content msg_type cid.
        kept (insert_unless_sent now a b content msg_type cid) (λ db. ground arith);
    mark_seen-Keeps = λ a b db v. v;
    add_friend-Keeps =
        both_rows-Keeps HasKept (λ now a b. kept (insert_friend now a b) (λ db. ground arith));
    insert_group-Keeps =
        λ now gid name owner. kept (insert_group now gid name owner) (λ db. ground arith);
    insert_owner-Keeps = λ now gid uid. kept (insert_owner now gid uid) (λ db. ground arith);
    insert_member-Keeps = λ now gid uid. kept (insert_member now gid uid) (λ db. ground arith);
    delete_member-Keeps = λ gid uid db v. v;
    insert_group_message-Keeps = λ now gid uid content msg_type.
        insert_group_message-HasKept now gid uid content msg_type none;
    insert_group_unless_sent-Keeps = insert_group_unless_sent-HasKept;
    upsert_group_cursor-Keeps =
        λ uid gid last. kept (upsert_group_cursor uid gid last) (λ db. ground arith);
    increment_reads-Keeps = increment_reads-HasKept;
    delete_chats-Keeps = λ uid db v. v;
    delete_group-Keeps = λ gid db v. (v.0, All-filter _ _ db.group_messages v.1);
    delete_sent-Keeps = λ uid db v. (v.0, All-filter _ _ db.group_messages v.1);
    delete_cursors-Keeps = λ uid db v. v;
    delete_account-Keeps = λ uid. kept (delete_account uid) (λ db. ground arith);
  }

-- A message that is found has an id that the sequence is past.
only_below :
    (id next : ℕ) {m : GroupMessage} (ms : List GroupMessage)
    → All (λ n. n.id < next) ms
    → find? (has_id id) ms ≡ some m
    → id < next
only_below id next ms h f =
    found-All (λ n. id < next) (has_id id) ms (All-map _ _ ms (λ n l k. ground arith) h) f

-- In tables that meet the keys of init.sql, whatever writing statements of src/dao.rs follow, a group
-- message that is found by its id before and after has the same group, sender, content, type, client
-- id and time, and its read count has not fallen.
pub read_count-Writes :
    {c d : Db} (id : ℕ) (m n : GroupMessage)
    → IsIntact c
    → find? (has_id id) c.group_messages ≡ some m
    → Writes c d
    → find? (has_id id) d.group_messages ≡ some n
    → Continues m n
read_count-Writes {c} {d} id m n v f w g =
    let start : HasKept id m c = (
      only_below id c.next_group_msg_id c.group_messages v.message_rows.0 f,
      All-map _ _ c.group_messages (λ x e k. subst (Continues m) (sym (e k)) (Continues-refl m))
          (only_found _ (has_id id) c.group_messages (λ x y h k. ground arith) v.message_rows.1 f),
    ) in
    found-All _ (has_id id) d.group_messages
      (Writes_keep (HasKept id m) (HasKept-RowsKeep id m) start w).1 g
