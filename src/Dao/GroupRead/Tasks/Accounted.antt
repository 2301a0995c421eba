-- ===== src/Dao/GroupRead/Tasks/Accounted.antt =====
-- src/dao.rs, mark_group_read_and_get_delta: what the tables and the calls on the way have in common
-- between any two statements.
use myx_im.Base.{ℕ, ◌+◌, ◌<◌, ◌≤◌, ◌≡◌, true, List, ◌∷◌, ◌++◌, arith}
use myx_im.Base.Rows.{All, All-map}
use myx_im.Db.{Db, GroupMessage, GroupReadCursor}
use myx_im.Dao.GroupRead.Cursors.{readers, KeysDistinct}
use myx_im.Dao.GroupRead.Counts.{IsBehind}
use myx_im.Dao.GroupRead.Tasks.{Task, Call, is_active}
use myx_im.Dao.GroupRead.Tasks.Pending.{
  owed_by, owed, IsCurrent, AllApart, owed-middle, All-front, All-back, AllApart-front,
  AllApart-back, all_apart-advanced,
}

-- A message's counter, with the calls that still owe it a reader, is at most the number of its readers.
abbrev pub IsOwed : List GroupReadCursor → ℕ → List Call → GroupMessage → Type 0
IsOwed cursors next calls m =
    (m.read_count + owed m calls ≤ readers m cursors) × (0 < m.id) × (m.id < next)

abbrev pub CallIsCurrent : List GroupReadCursor → ℕ → Call → Type 0
CallIsCurrent cursors next c = IsCurrent cursors next c.group_id c.viewer_uid c.task

pub record IsAccounted (db : Db) (calls : List Call) : Type 0 where
  pub accounted : All (IsOwed db.group_read_cursors db.next_group_msg_id calls) db.group_messages
  pub behind : All (IsBehind db.next_group_msg_id) db.group_read_cursors
  pub distinct : KeysDistinct db.group_read_cursors
  pub started : 0 < db.next_group_msg_id
  pub current : All (CallIsCurrent db.group_read_cursors db.next_group_msg_id) calls
  pub alone : AllApart calls
  -- No message, also none that is still to appear, is owed more than its readers.
  pub possible : (m : GroupMessage) → 0 < m.id → owed m calls ≤ readers m db.group_read_cursors

pub IsAccounted-front :
    (db : Db) (c : Call) (xs ys : List Call)
    → IsAccounted db (xs ++ (c ∷ ys))
    → IsAccounted db (c ∷ (xs ++ ys))
IsAccounted-front db c xs ys v = record {
  accounted =
      All-map _ _ db.group_messages (λ m h. (omega (arith, h.0, owed-middle m c xs ys), h.1, h.2))
        v.accounted;
  behind = v.behind;
  distinct = v.distinct;
  started = v.started;
  current = All-front _ c ys xs v.current;
  alone = AllApart-front c xs ys v.alone;
  possible = λ m p. omega (arith, v.possible m p, owed-middle m c xs ys);
}

pub IsAccounted-back :
    (db : Db) (c : Call) (xs ys : List Call)
    → IsAccounted db (c ∷ (xs ++ ys))
    → IsAccounted db (xs ++ (c ∷ ys))
IsAccounted-back db c xs ys v = record {
  accounted =
      All-map _ _ db.group_messages (λ m h. (omega (arith, h.0, owed-middle m c xs ys), h.1, h.2))
        v.accounted;
  behind = v.behind;
  distinct = v.distinct;
  started = v.started;
  current = All-back _ c ys xs v.current;
  alone = AllApart-back c xs ys v.alone;
  possible = λ m p. omega (arith, v.possible m p, owed-middle m c xs ys);
}

abbrev pub call_of : ℕ → ℕ → Task → Call
call_of gid uid t = record { group_id = gid; viewer_uid = uid; task = t }

-- A statement that only reads.
pub reads-IsAccounted :
    (gid uid : ℕ) (t t' : Task) (rest : List Call) (db : Db)
    → is_active t ≡ true
    → ((m : GroupMessage) → owed_by gid uid t' m ≡ owed_by gid uid t m)
    → IsCurrent db.group_read_cursors db.next_group_msg_id gid uid t'
    → IsAccounted db (call_of gid uid t ∷ rest)
    → IsAccounted db (call_of gid uid t' ∷ rest)
reads-IsAccounted gid uid t t' rest db e same now v = record {
  accounted =
      All-map _ _ db.group_messages (λ m h. (omega (arith, h.0, same m), h.1, h.2)) v.accounted;
  behind = v.behind;
  distinct = v.distinct;
  started = v.started;
  current = (now, v.current.1);
  alone = (all_apart-advanced gid uid t t' rest e v.alone.0, v.alone.1);
  possible = λ m p. omega (arith, v.possible m p, same m);
}
