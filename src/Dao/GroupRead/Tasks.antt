-- ===== src/Dao/GroupRead/Tasks.antt =====
-- src/dao.rs, mark_group_read_and_get_delta, one statement at a time: the calls of several readers,
-- each between two of its statements, and the messages that are sent meanwhile.
pub mod Pending
pub mod Accounted
pub mod Statements
pub mod Rows
pub mod Interleaved
pub mod Alone
pub mod Twice
pub mod Race
use myx_im.Base.{
  ℕ, suc, ◌<◌, Bool, true, false, not, ◌&&◌, ◌≡◌, Option, none, some, List, [], ◌∷◌, ◌++◌, all,
  ◌==◌, if◌then◌else◌,
}
use myx_im.Base.Outcome.{Outcome, ok, err}
use myx_im.Model.{Uuid, DeltaItem}
use myx_im.Db.{Db, GroupMessage}
use myx_im.Db.Statement.{DbError}
use myx_im.Dao.GroupMessages.{read_up_to}
use myx_im.Dao.GroupRead.{max_id, upsert_group_cursor, increment_reads, select_delta}

-- Where a call stands, with the variables that are live there.
pub data Task : Type 0 where
  begun : Task
  has_latest : (latest : ℕ) → Task
  has_old : (latest old : ℕ) → Task
  moved : (latest old : ℕ) → Task
  counted : (latest old : ℕ) → Task
  returned : List DeltaItem → Task
  failed : DbError → Task

pub record Call : Type 0 where
  pub group_id : Uuid
  pub viewer_uid : Uuid
  pub task : Task

abbrev pub is_active : Task → Bool
is_active (returned items) = false
is_active (failed e) = false
is_active _ = true

abbrev pub after_latest : Option ℕ → Task
after_latest none = returned []
after_latest (some latest) = has_latest latest

abbrev pub after_upsert : ℕ → ℕ → Outcome Db DbError (Unit {0}) → Db × Task
after_upsert latest old (ok u db) = (db, moved latest old)
after_upsert latest old (err e db) = (db, failed e)

abbrev pub after_increment : ℕ → ℕ → Outcome Db DbError ℕ → Db × Task
after_increment latest old (ok affected db) =
    (db, if affected == 0 then returned [] else counted latest old)
after_increment latest old (err e db) = (db, failed e)

abbrev pub after_select : Outcome Db DbError (List DeltaItem) → Db × Task
after_select (ok items db) = (db, returned items)
after_select (err e db) = (db, failed e)

-- The next statement of a call.
abbrev pub advance_task : Uuid → Uuid → Task → Db → Db × Task
advance_task gid uid begun db = (db, after_latest (max_id gid db.group_messages))
advance_task gid uid (has_latest latest) db =
    (db, has_old latest (read_up_to uid gid db.group_read_cursors))
advance_task gid uid (has_old latest old) db =
    after_upsert latest old (upsert_group_cursor uid gid latest db)
advance_task gid uid (moved latest old) db =
    after_increment latest old (increment_reads gid old latest uid db)
advance_task gid uid (counted latest old) db = after_select (select_delta gid old latest uid db)
advance_task gid uid (returned items) db = (db, returned items)
advance_task gid uid (failed e) db = (db, failed e)

pub record System : Type 0 where
  pub db : Db
  pub calls : List Call

-- The call is on the way for the reader in the group.
abbrev pub busy_for : Uuid → Uuid → Call → Bool
busy_for gid uid d = is_active d.task && (d.viewer_uid == uid && d.group_id == gid)

-- Two calls of which one has ended, or of different readers.
abbrev pub apart : Call → Call → Bool
apart c d = not (is_active c.task && busy_for c.group_id c.viewer_uid d)

abbrev pub all_apart : Call → List Call → Bool
all_apart c = all (apart c)

pub data Step : System → System → Type 0 where
  -- An insertion of a message takes the next id of the sequence.
  takes_id :
      (s : System)
      → Step s (record s { db = record s.db { next_group_msg_id = suc s.db.next_group_msg_id } })
  -- The row of an insertion becomes visible, at any time after it took its id: insertions that run
  -- side by side may end in another order than that of their ids.
  appears :
      (s : System) (m : GroupMessage)
      → m.read_count ≡ 0
      → 0 < m.id
      → m.id < s.db.next_group_msg_id
      → Step s (record s { db = record s.db { group_messages = m ∷ s.db.group_messages } })
  -- A call begins where its reader has none on the way in this group.
  begins :
      (s : System) (gid uid : Uuid)
      → all_apart (record { group_id = gid; viewer_uid = uid; task = begun }) s.calls ≡ true
      → Step s
          (record s { calls = record { group_id = gid; viewer_uid = uid; task = begun } ∷ s.calls })
  advances :
      (s : System) (xs ys : List Call) (c : Call)
      → s.calls ≡ xs ++ (c ∷ ys)
      → Step s (record {
        db = (advance_task c.group_id c.viewer_uid c.task s.db).0;
        calls =
            xs ++ (record c { task = (advance_task c.group_id c.viewer_uid c.task s.db).1 } ∷ ys);
      })

pub data Reach (s : System) : System → Type 0 where
  here : Reach s s
  next_step : {t u : System} → Reach s t → Step t u → Reach s u
