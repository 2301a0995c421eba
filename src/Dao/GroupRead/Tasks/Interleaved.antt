-- ===== src/Dao/GroupRead/Tasks/Interleaved.antt =====
-- src/dao.rs, mark_group_read_and_get_delta: the read counts in any interleaving of the statements of
-- calls of different readers, with messages sent meanwhile.
use myx_im.Base.{
  ℕ, ◌<◌, ◌≤◌, ◌≡◌, refl, subst, true, Option, none, some, List, [], ◌∷◌, ◌++◌, inl, inr, any, ◌==◌,
  arith, Bool-cases, count_if,
}
use myx_im.Base.Rows.{All, All-map}
use myx_im.Db.{Db}
use myx_im.Dao.Groups.{can_belong}
use myx_im.Dao.GroupMessages.{cursor_of}
use myx_im.Dao.GroupRead.{in_delta, max_id}
use myx_im.Dao.GroupRead.Counts.{IsBehind, max_id-lt}
use myx_im.Dao.GroupRead.Cursors.{readers, KeysDistinct}
use myx_im.Dao.GroupRead.Tasks.{
  Task, begun, has_latest, has_old, moved, counted, returned, failed, Call, all_apart, after_latest,
  advance_task, System, Step, takes_id, appears, begins, advances, Reach, here, next_step,
}
use myx_im.Dao.GroupRead.Tasks.Accounted.{
  IsAccounted, IsAccounted-front, IsAccounted-back, call_of, reads-IsAccounted,
}
use myx_im.Dao.GroupRead.Tasks.Statements.{upsert-IsAccounted, first_upsert-IsAccounted}
use myx_im.Dao.GroupRead.Tasks.Rows.{counts-IsAccounted, later-IsAccounted, appeared-IsAccounted}

begun-IsAccounted :
    (gid uid : ℕ) (rest : List Call) (db : Db) (latest : Option ℕ)
    → max_id gid db.group_messages ≡ latest
    → IsAccounted db (call_of gid uid begun ∷ rest)
    → IsAccounted db (call_of gid uid (after_latest latest) ∷ rest)
begun-IsAccounted gid uid rest db none e v =
    reads-IsAccounted gid uid begun (returned []) rest db refl (λ m. refl) tt v
begun-IsAccounted gid uid rest db (some latest) e v =
    reads-IsAccounted gid uid begun (has_latest latest) rest db refl (λ m. refl)
      (max_id-lt gid db.next_group_msg_id latest db.group_messages
        (All-map _ _ db.group_messages (λ m a. a.2) v.accounted) e)
      v

upsert_step-IsAccounted :
    (gid uid last old : ℕ) (rest : List Call) (db : Db)
    → IsAccounted db (call_of gid uid (has_old last old) ∷ rest)
    → IsAccounted
        (advance_task gid uid (has_old last old) db).0
        (call_of gid uid (advance_task gid uid (has_old last old) db).1 ∷ rest)
upsert_step-IsAccounted gid uid last old rest db v =
    elim (Bool-cases (any (cursor_of uid gid) db.group_read_cursors)) [
      | inl e ↦ rw e (upsert-IsAccounted gid uid last old rest db v e)
      | inr e ↦ elim (Bool-cases (can_belong gid uid db)) [
        | inl b ↦ rw (e, b) (first_upsert-IsAccounted gid uid last old rest db v e)
        | inr b ↦
            rw (e, b)
              (reads-IsAccounted gid uid (has_old last old) (failed _) rest db refl (λ m. refl) tt
                v)
      ]
    ]

increment_step-IsAccounted :
    (gid uid last old : ℕ) (rest : List Call) (db : Db)
    → IsAccounted db (call_of gid uid (moved last old) ∷ rest)
    → IsAccounted
        (advance_task gid uid (moved last old) db).0
        (call_of gid uid (advance_task gid uid (moved last old) db).1 ∷ rest)
increment_step-IsAccounted gid uid last old rest db v =
    elim (Bool-cases (count_if (in_delta gid old last uid) db.group_messages == 0)) [
      | inl e ↦ rw e (counts-IsAccounted gid uid last old (returned []) rest db (λ m. refl) tt v)
      | inr e ↦
          rw e (counts-IsAccounted gid uid last old (counted last old) rest db (λ m. refl) tt v)
    ]

-- One statement of a call.
statement-IsAccounted :
    (gid uid : ℕ) (t : Task) (rest : List Call) (db : Db)
    → IsAccounted db (call_of gid uid t ∷ rest)
    → IsAccounted
        (advance_task gid uid t db).0
        (call_of gid uid (advance_task gid uid t db).1 ∷ rest)
statement-IsAccounted gid uid begun rest db v =
    begun-IsAccounted gid uid rest db (max_id gid db.group_messages) refl v
statement-IsAccounted gid uid (has_latest latest) rest db v =
    reads-IsAccounted gid uid (has_latest latest) (has_old latest _) rest db refl (λ m. refl)
      (v.current.0, refl) v
statement-IsAccounted gid uid (has_old last old) rest db v =
    upsert_step-IsAccounted gid uid last old rest db v
statement-IsAccounted gid uid (moved last old) rest db v =
    increment_step-IsAccounted gid uid last old rest db v
statement-IsAccounted gid uid (counted last old) rest db v =
    reads-IsAccounted gid uid (counted last old) (returned _) rest db refl (λ m. refl) tt v
statement-IsAccounted gid uid (returned items) rest db v = v
statement-IsAccounted gid uid (failed e) rest db v = v

begins-IsAccounted :
    (gid uid : ℕ) (db : Db) (calls : List Call)
    → all_apart (call_of gid uid begun) calls ≡ true
    → IsAccounted db calls
    → IsAccounted db (call_of gid uid begun ∷ calls)
begins-IsAccounted gid uid db calls free v = record {
  accounted = All-map _ _ db.group_messages (λ m a. (omega (arith, a.0), a.1, a.2)) v.accounted;
  behind = v.behind;
  distinct = v.distinct;
  started = v.started;
  current = (tt, v.current);
  alone = (free, v.alone);
  possible = λ m p. omega (arith, v.possible m p);
}

Step-IsAccounted : {s t : System} → Step s t → IsAccounted s.db s.calls → IsAccounted t.db t.calls
Step-IsAccounted (takes_id s) v = later-IsAccounted s.db s.calls v
Step-IsAccounted (appears s m z p lt) v = appeared-IsAccounted m s.db s.calls z p lt v
Step-IsAccounted (begins s gid uid free) v = begins-IsAccounted gid uid s.db s.calls free v
Step-IsAccounted (advances s xs ys c e) v = IsAccounted-back _ _ xs ys (
    statement-IsAccounted c.group_id c.viewer_uid c.task (xs ++ ys) s.db
      (IsAccounted-front s.db c xs ys (subst (IsAccounted s.db) e v)))

Reach-IsAccounted : {s t : System} → Reach s t → IsAccounted s.db s.calls → IsAccounted t.db t.calls
Reach-IsAccounted here v = v
Reach-IsAccounted (next_step r h) v = Step-IsAccounted h (Reach-IsAccounted r v)

-- No message is counted more than it has readers, by their cursors.
pub record CountsAtMost (db : Db) : Type 0 where
  pub bounded :
      All
        (λ m.
          (m.read_count ≤ readers m db.group_read_cursors)
          × (0 < m.id)
          × (m.id < db.next_group_msg_id))
        db.group_messages
  pub behind : All (IsBehind db.next_group_msg_id) db.group_read_cursors
  pub distinct : KeysDistinct db.group_read_cursors
  pub started : 0 < db.next_group_msg_id

-- Let calls of mark_group_read_and_get_delta run one statement at a time, interleaved in any way with
-- each other and with insertions of messages, which may become visible in another order than that of
-- their ids, where no two calls on the way are of the same user in the same group, and no statement
-- fails but by a constraint. If no read count is above the number of users other than the sender,
-- members or not, whose cursor has passed the message, then none is in any state that is reached, also
-- between two statements of a call.
pub interleaved-CountsAtMost :
    (db : Db) {s : System}
    → CountsAtMost db
    → Reach (record { db = db; calls = [] }) s
    → CountsAtMost s.db
interleaved-CountsAtMost db {s = s} v r = record {
  bounded = All-map _ _ s.db.group_messages (λ m a. (omega (arith, a.0), a.1, a.2)) w.accounted;
  behind = w.behind;
  distinct = w.distinct;
  started = w.started;
}
  where
    w : IsAccounted s.db s.calls
    w = Reach-IsAccounted r (record {
      accounted = All-map _ _ db.group_messages (λ m a. (omega (arith, a.0), a.1, a.2)) v.bounded;
      behind = v.behind;
      distinct = v.distinct;
      started = v.started;
      current = tt;
      alone = tt;
      possible = λ m p. omega arith;
    })
