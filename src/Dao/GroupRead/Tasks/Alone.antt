-- ===== src/Dao/GroupRead/Tasks/Alone.antt =====
-- src/dao.rs, mark_group_read_and_get_delta: a call with no other on the way.
use myx_im.Base.{
  ℕ, zero, suc, ◌≡◌, refl, Option, none, some, List, [], inl, inr, count_if, ◌==◌, Bool-cases,
}
use myx_im.Base.Outcome.{Outcome, ok, err, ◌>>=◌}
use myx_im.Model.{Uuid, DeltaItem}
use myx_im.Db.{Db}
use myx_im.Db.Statement.{Pool, DbError, healthy, statement, within}
use myx_im.Dao.GroupMessages.{read_up_to}
use myx_im.Dao.GroupRead.{
  in_delta, max_id, increment_reads, delta_rows, upsert_group_read_cursor, upsert_group_cursor,
  mark_up_to, mark_group_read_and_get_delta,
}
use myx_im.Dao.GroupRead.Tasks.{
  Task, begun, after_latest, after_upsert, moved, returned, failed, advance_task,
}

-- The given number of statements of one call.
abbrev alone : ℕ → Uuid → Uuid → Db × Task → Db × Task
alone zero gid uid (db, t) = (db, t)
alone (suc n) gid uid (db, t) = alone n gid uid (advance_task gid uid t db)

-- What the call answers, where it has ended.
abbrev outcome_of : Db × Task → Option (Outcome Pool DbError (List DeltaItem))
outcome_of (db, returned items) = some (ok items (healthy db))
outcome_of (db, failed e) = some (err e (healthy db))
outcome_of (db, _) = none

-- The last two statements, after the cursor has moved.
counts_alone :
    (gid uid last old : ℕ) (db : Db)
    → outcome_of (alone 2 gid uid (db, moved last old))
      ≡ some (
          (do
            affected ← statement (increment_reads gid old last uid)
            delta_rows gid old last uid affected)
            (healthy db))
counts_alone gid uid last old db =
    elim (Bool-cases (count_if (in_delta gid old last uid) db.group_messages == 0)) [
      | inl n ↦ rw n
      | inr n ↦ rw n
    ]

-- The statements after the upsert, whatever its outcome was.
upserted_alone :
    (gid uid last old : ℕ) (r : Outcome Db DbError (Unit {0})) (p : Pool)
    → outcome_of (alone 2 gid uid (after_upsert last old r))
      ≡ some (
          (do
            _ ← λ q. within [] r
            affected ← statement (increment_reads gid old last uid)
            delta_rows gid old last uid affected)
            p)
upserted_alone gid uid last old (ok u db) p = counts_alone gid uid last old db
upserted_alone gid uid last old (err e db) p = refl

-- The statements from the one that reads the old cursor on.
latest_alone :
    (gid uid : ℕ) (latest : Option ℕ) (db : Db)
    → outcome_of (alone 4 gid uid (db, after_latest latest))
      ≡ some (mark_up_to gid uid latest (healthy db))
unfolding upsert_group_read_cursor
latest_alone gid uid none db = refl
latest_alone gid uid (some last) db =
    upserted_alone gid uid last (read_up_to uid gid db.group_read_cursors)
      (upsert_group_cursor uid gid last db) (healthy db)

-- Where no statement fails and no other call is on the way, five statements end a call, with the
-- answer and the database of the whole operation.
alone-mark_group_read :
    (gid uid : Uuid) (db : Db)
    → outcome_of (alone 5 gid uid (db, begun))
      ≡ some (mark_group_read_and_get_delta gid uid (healthy db))
unfolding mark_group_read_and_get_delta
alone-mark_group_read gid uid db = latest_alone gid uid (max_id gid db.group_messages) db
