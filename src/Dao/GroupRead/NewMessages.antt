-- ===== src/Dao/GroupRead/NewMessages.antt =====
-- A new group message (src/dao.rs, persist_group_message) and the read counts.
use myx_im.Base.{
  ℕ, suc, ◌≡◌, refl, sym, String, Option, none, some, List, [], ◌∷◌, inl, inr, any, find?, arith,
  Bool-cases, Option-cases,
}
use myx_im.Base.Outcome.{Outcome, ok, err, state_of}
use myx_im.Base.Rows.{All, All-map}
use myx_im.Db.{Db, GroupMessage, GroupReadCursor}
use myx_im.Db.Statement.{Pool, DbError, statement}
use myx_im.Db.Keeps.{Keeps, KeepsRows, statement-Keeps, >>=-Keeps}
use myx_im.Dao.Groups.{can_belong}
use myx_im.Dao.GroupMessages.{
  persist_group_message, was_sent, insert_group_message, insert_group_unless_sent, group_row,
  some_id, reuse_sent, sent_group_message_id,
}
use myx_im.Dao.GroupRead.Cursors.{readers}
use myx_im.Dao.GroupRead.Counts.{CountsReads, IsBehind}

-- A message that no cursor has passed has no readers.
pub unread-readers :
    (m : GroupMessage) (cs : List GroupReadCursor) → All (IsBehind m.id) cs → readers m cs ≡ 0
unread-readers m [] b = refl
unread-readers m (c ∷ cs) b = ground (arith, unread-readers m cs b.1)

later :
    (db : Db)
    → CountsReads db
    → CountsReads (record db { next_group_msg_id = suc db.next_group_msg_id })
later db v = record {
  counted = All-map _ _ db.group_messages (λ m c. (c.0, c.1, omega arith)) v.counted;
  behind = All-map _ _ db.group_read_cursors (λ c b. omega arith) v.behind;
  distinct = v.distinct;
  started = omega arith;
}

-- The new message, its sequence advanced.
insert-CountsReads :
    (now gid from_uid : ℕ) (content : String) (msg_type : ℕ) (cid : Option String)
    → KeepsRows CountsReads (insert_group_message now gid from_uid content msg_type cid)
insert-CountsReads now gid from_uid content msg_type cid db v =
    elim (Bool-cases (can_belong gid from_uid db)) [
      | inl e ↦ rw e (record {
        counted = (
          (
            sym (
                unread-readers (group_row db now gid from_uid content msg_type cid)
                  db.group_read_cursors v.behind),
            v.started,
            omega arith,
          ),
          (later db v).counted,
        );
        behind = (later db v).behind;
        distinct = v.distinct;
        started = omega arith;
      })
      | inr e ↦ rw e (later db v)
    ]

some_id-keeps :
    (r : Outcome Db DbError ℕ) → CountsReads (state_of r) → CountsReads (state_of (some_id r))
some_id-keeps (ok id db) h = h
some_id-keeps (err e db) h = h

lookup-CountsReads : (cid : String) → KeepsRows CountsReads (sent_group_message_id cid)
lookup-CountsReads cid db v = elim (Option-cases (find? (was_sent cid) db.group_messages)) [
  | inl e ↦ rw e v
  | inr (m, e) ↦ rw e v
]

insert_unless-CountsReads :
    (now gid from_uid : ℕ) (content : String) (msg_type : ℕ) (cid : String)
    → KeepsRows CountsReads (insert_group_unless_sent now gid from_uid content msg_type cid)
insert_unless-CountsReads now gid from_uid content msg_type cid db v =
    elim (Bool-cases (any (was_sent cid) db.group_messages)) [
      | inl e ↦ rw e (later db v)
      | inr e ↦ rw e (
          some_id-keeps (insert_group_message now gid from_uid content msg_type (some cid) db)
            (insert-CountsReads now gid from_uid content msg_type (some cid) db v))
    ]

reuse-CountsReads :
    (cid : String) (inserted : Option ℕ) → Keeps CountsReads (reuse_sent cid inserted)
reuse-CountsReads cid (some id) p v = v
reuse-CountsReads cid none p v =
    statement-Keeps CountsReads (sent_group_message_id cid) (lookup-CountsReads cid) p v

-- Sending a group message keeps every read count right, whichever statements fail: a new message
-- has no readers, and an id of a message that is not inserted is not used again.
persist_group_message-CountsReads :
    (now gid from_uid : ℕ) (content : String) (msg_type : ℕ) (cid : Option String) (p : Pool)
    → CountsReads p.db
    → CountsReads (state_of (persist_group_message now gid from_uid content msg_type cid p)).db
unfolding persist_group_message
persist_group_message-CountsReads now gid from_uid content msg_type (some cid) p v =
    >>=-Keeps CountsReads
      (statement (insert_group_unless_sent now gid from_uid content msg_type cid)) (reuse_sent cid)
      (statement-Keeps CountsReads _
        (insert_unless-CountsReads now gid from_uid content msg_type cid))
      (reuse-CountsReads cid) p v
persist_group_message-CountsReads now gid from_uid content msg_type none p v =
    statement-Keeps CountsReads (insert_group_message now gid from_uid content msg_type none)
      (insert-CountsReads now gid from_uid content msg_type none) p v
