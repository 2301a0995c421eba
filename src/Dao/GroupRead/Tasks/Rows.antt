-- ===== src/Dao/GroupRead/Tasks/Rows.antt =====
-- src/dao.rs, the statements that write rows of im_group_messages, while calls that mark messages as
-- read are on the way.
use myx_im.Base.{
  ℕ, suc, ◌+◌, ◌<◌, ◌≤◌, ◌≡◌, refl, sym, subst, Bool, true, false, List, [], ◌∷◌, inl, inr,
  update_where, if◌then◌else◌, arith, Bool-cases,
}
use myx_im.Base.Rows.{All-map, All-update_where}
use myx_im.Db.{Db, GroupMessage, GroupReadCursor}
use myx_im.Dao.GroupRead.{in_delta, count_read}
use myx_im.Dao.GroupRead.Cursors.{readers}
use myx_im.Dao.GroupRead.Tasks.{
  Task, begun, has_latest, has_old, moved, counted, returned, failed, Call,
}
use myx_im.Dao.GroupRead.Tasks.Pending.{owed_by, owed, IsCurrent, all_apart-advanced}
use myx_im.Dao.GroupRead.Tasks.Accounted.{IsOwed, IsAccounted, call_of}

owed_by-count_read :
    (gid uid : ℕ) (t : Task) (m : GroupMessage)
    → owed_by gid uid t (count_read m) ≡ owed_by gid uid t m
owed_by-count_read gid uid begun m = refl
owed_by-count_read gid uid (has_latest latest) m = refl
owed_by-count_read gid uid (has_old latest old) m = refl
owed_by-count_read gid uid (moved latest old) m = refl
owed_by-count_read gid uid (counted latest old) m = refl
owed_by-count_read gid uid (returned items) m = refl
owed_by-count_read gid uid (failed x) m = refl

owed-count_read : (m : GroupMessage) (cs : List Call) → owed (count_read m) cs ≡ owed m cs
owed-count_read m [] = refl
owed-count_read m (c ∷ cs) =
    rw (owed_by-count_read c.group_id c.viewer_uid c.task m, owed-count_read m cs) refl

readers-count_read :
    (m : GroupMessage) (cs : List GroupReadCursor) → readers (count_read m) cs ≡ readers m cs
readers-count_read m cs = refl

module _ (gid uid last old next : ℕ) (t' : Task) (rest : List Call) (cs : List GroupReadCursor)
    (none_owed : (m : GroupMessage) → owed_by gid uid t' m ≡ 0) (m : GroupMessage)
    (a : IsOwed cs next (call_of gid uid (moved last old) ∷ rest) m) where
  -- What the call owes the message, by whether the message is in its delta.
  owed_where :
      (b : Bool)
      → in_delta gid old last uid m ≡ b
      → m.read_count + ((if b then 1 else 0) + owed m rest) ≤ readers m cs
  owed_where b e =
      subst (λ b. m.read_count + ((if b then 1 else 0) + owed m rest) ≤ readers m cs) e a.0

  paid :
      in_delta gid old last uid m ≡ true → IsOwed cs next (call_of gid uid t' ∷ rest) (count_read m)
  paid e = (
    omega (
      arith,
      none_owed (count_read m),
      owed-count_read m rest,
      readers-count_read m cs,
      owed_where true e,
    ),
    a.1,
    a.2,
  )

  nothing_due : in_delta gid old last uid m ≡ false → IsOwed cs next (call_of gid uid t' ∷ rest) m
  nothing_due e = (omega (arith, none_owed m, owed_where false e), a.1, a.2)

  -- The `UPDATE` of the counts pays what the call owes.
  counted_row :
      IsOwed cs next
        (call_of gid uid t' ∷ rest)
        (if in_delta gid old last uid m then count_read m else m)
  counted_row = elim (Bool-cases (in_delta gid old last uid m)) [
    | inl e ↦
        subst (λ b. IsOwed cs next (call_of gid uid t' ∷ rest) (if b then count_read m else m))
          (sym e) (paid e)
    | inr e ↦
        subst (λ b. IsOwed cs next (call_of gid uid t' ∷ rest) (if b then count_read m else m))
          (sym e) (nothing_due e)
  ]

pub counts-IsAccounted :
    (gid uid last old : ℕ) (t' : Task) (rest : List Call) (db : Db)
    → ((m : GroupMessage) → owed_by gid uid t' m ≡ 0)
    → IsCurrent db.group_read_cursors db.next_group_msg_id gid uid t'
    → IsAccounted db (call_of gid uid (moved last old) ∷ rest)
    → IsAccounted
        (record db {
          group_messages = update_where (in_delta gid old last uid) count_read db.group_messages;
        })
        (call_of gid uid t' ∷ rest)
counts-IsAccounted gid uid last old t' rest db none_owed now v = record {
  accounted =
      All-update_where _ _ (in_delta gid old last uid) count_read db.group_messages
        (counted_row gid uid last old db.next_group_msg_id t' rest db.group_read_cursors none_owed)
        v.accounted;
  behind = v.behind;
  distinct = v.distinct;
  started = v.started;
  current = (now, v.current.1);
  alone = (all_apart-advanced gid uid (moved last old) t' rest refl v.alone.0, v.alone.1);
  possible = λ m p. omega (arith, v.possible m p, none_owed m);
}

IsCurrent-later :
    (cs : List GroupReadCursor) (next gid uid : ℕ) (t : Task)
    → IsCurrent cs next gid uid t
    → IsCurrent cs (suc next) gid uid t
IsCurrent-later cs next gid uid begun h = tt
IsCurrent-later cs next gid uid (has_latest latest) h = omega arith
IsCurrent-later cs next gid uid (has_old latest old) h = (omega arith, h.1)
IsCurrent-later cs next gid uid (moved latest old) h = omega arith
IsCurrent-later cs next gid uid (counted latest old) h = tt
IsCurrent-later cs next gid uid (returned items) h = tt
IsCurrent-later cs next gid uid (failed x) h = tt

pub later-IsAccounted :
    (db : Db) (calls : List Call)
    → IsAccounted db calls
    → IsAccounted (record db { next_group_msg_id = suc db.next_group_msg_id }) calls
later-IsAccounted db calls v = record {
  accounted = All-map _ _ db.group_messages (λ m a. (a.0, a.1, omega arith)) v.accounted;
  behind = All-map _ _ db.group_read_cursors (λ c b. omega arith) v.behind;
  distinct = v.distinct;
  started = omega arith;
  possible = v.possible;
  current =
      All-map _ _ calls
        (λ c.
          IsCurrent-later db.group_read_cursors db.next_group_msg_id c.group_id c.viewer_uid c.task)
        v.current;
  alone = v.alone;
}

-- A message that becomes visible meanwhile.
pub appeared-IsAccounted :
    (m : GroupMessage) (db : Db) (calls : List Call)
    → m.read_count ≡ 0
    → 0 < m.id
    → m.id < db.next_group_msg_id
    → IsAccounted db calls
    → IsAccounted (record db { group_messages = m ∷ db.group_messages }) calls
appeared-IsAccounted m db calls z p lt v = record {
  accounted = ((omega (arith, z, v.possible m p), p, lt), v.accounted);
  behind = v.behind;
  distinct = v.distinct;
  started = v.started;
  current = v.current;
  alone = v.alone;
  possible = v.possible;
}
