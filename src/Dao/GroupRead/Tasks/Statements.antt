-- ===== src/Dao/GroupRead/Tasks/Statements.antt =====
-- src/dao.rs, mark_group_read_and_get_delta: each statement that writes, while other calls are on the
-- way.
use myx_im.Base.{
  ℕ, ◌∙◌, ◌+◌, ◌<◌, ◌≤◌, ◌≡◌, refl, sym, true, false, List, [], ◌∷◌, inl, inr, any, update_where,
  arith, Bool-cases,
}
use myx_im.Base.Rows.{All, All-map}
use myx_im.Model.{Uuid}
use myx_im.Db.{Db, GroupMessage, GroupReadCursor}
use myx_im.Dao.GroupMessages.{cursor_of, read_up_to}
use myx_im.Dao.GroupRead.{advance}
use myx_im.Dao.GroupRead.Cursors.{
  readers, KeysDistinct, newly, readers-advance, readers-cons, update-KeysDistinct,
}
use myx_im.Dao.GroupRead.Counts.{IsBehind, advance-IsBehind}
use myx_im.Dao.GroupRead.Tasks.{
  Task, begun, has_latest, has_old, moved, counted, returned, failed, Call, is_active, apart,
  all_apart,
}
use myx_im.Dao.GroupRead.Tasks.Pending.{
  owed, IsCurrent, conjuncts, all_apart-advanced, apart-cursor,
}
use myx_im.Dao.GroupRead.Tasks.Accounted.{CallIsCurrent, IsAccounted, call_of}

-- Another reader's variables, after an upsert that leaves its cursor alone.
other-IsCurrent :
    (cs cs' : List GroupReadCursor) (next gid uid : ℕ) (t : Task)
    → (is_active t ≡ true → read_up_to uid gid cs' ≡ read_up_to uid gid cs)
    → IsCurrent cs next gid uid t
    → IsCurrent cs' next gid uid t
other-IsCurrent cs cs' next gid uid begun e h = tt
other-IsCurrent cs cs' next gid uid (has_latest latest) e h = h
other-IsCurrent cs cs' next gid uid (has_old latest old) e h = (h.0, h.1 ∙ sym (e refl))
other-IsCurrent cs cs' next gid uid (moved latest old) e h = h
other-IsCurrent cs cs' next gid uid (counted latest old) e h = tt
other-IsCurrent cs cs' next gid uid (returned items) e h = tt
other-IsCurrent cs cs' next gid uid (failed x) e h = tt

-- The upsert leaves every other key's cursor alone.
abbrev IsLocal : Uuid → Uuid → List GroupReadCursor → List GroupReadCursor → Type 0
IsLocal gid uid cs cs' =
    (uid' gid' : Uuid)
    → ((r : GroupReadCursor) → cursor_of uid gid r ≡ true → cursor_of uid' gid' r ≡ false)
    → read_up_to uid' gid' cs' ≡ read_up_to uid' gid' cs

others-IsCurrent :
    (cs cs' : List GroupReadCursor) (next gid uid : ℕ) (t : Task) (rest : List Call)
    → IsLocal gid uid cs cs'
    → is_active t ≡ true
    → all_apart (call_of gid uid t) rest ≡ true
    → All (CallIsCurrent cs next) rest
    → All (CallIsCurrent cs' next) rest
others-IsCurrent cs cs' next gid uid t [] k e h a = tt
others-IsCurrent cs cs' next gid uid t (d ∷ rest) k e h a =
    let hs = conjuncts (apart (call_of gid uid t) d) (all_apart (call_of gid uid t) rest) h in
    (
      other-IsCurrent cs cs' next d.group_id d.viewer_uid d.task
          (λ b. k d.viewer_uid d.group_id (λ r. apart-cursor gid uid t d r e hs.0 b)) a.0,
      others-IsCurrent cs cs' next gid uid t rest k e hs.1 a.1,
    )

-- The cursor moves: the call owes its reader to every message that is newly covered.
moves-IsAccounted :
    (gid uid last old : ℕ) (cs' : List GroupReadCursor) (rest : List Call) (db : Db)
    → IsAccounted db (call_of gid uid (has_old last old) ∷ rest)
    → ((m : GroupMessage)
        → 0 < m.id
        → readers m cs'
          ≡ readers m db.group_read_cursors + newly uid gid last m db.group_read_cursors)
    → All (IsBehind db.next_group_msg_id) cs'
    → KeysDistinct cs'
    → IsLocal gid uid db.group_read_cursors cs'
    → IsAccounted (record db { group_read_cursors = cs' }) (call_of gid uid (moved last old) ∷ rest)
moves-IsAccounted gid uid last old cs' rest db v h b d k = record {
  accounted =
      All-map _ _ db.group_messages (λ m a. (owed_more m m.read_count a.0 (h m a.1), a.1, a.2))
        v.accounted;
  behind = b;
  distinct = d;
  started = v.started;
  current = (
    v.current.0.0,
    others-IsCurrent db.group_read_cursors cs' db.next_group_msg_id gid uid (has_old last old) rest
        k refl v.alone.0 v.current.1,
  );
  alone = (
    all_apart-advanced gid uid (has_old last old) (moved last old) rest refl v.alone.0,
    v.alone.1,
  );
  possible = λ m p. omega (arith, owed_more m 0 (omega (arith, v.possible m p)) (h m p));
}
  where
    owed_more :
        (m : GroupMessage) (n : ℕ)
        → n + owed m (call_of gid uid (has_old last old) ∷ rest) ≤ readers m db.group_read_cursors
        → readers m cs'
          ≡ readers m db.group_read_cursors + newly uid gid last m db.group_read_cursors
        → n + owed m (call_of gid uid (moved last old) ∷ rest) ≤ readers m cs'
    owed_more m k e n = rw (v.current.0.1, n) (omega (arith, e))

read_up_to-update :
    (gid uid last : ℕ) (cs : List GroupReadCursor)
    → IsLocal gid uid cs (update_where (cursor_of uid gid) (advance last) cs)
read_up_to-update gid uid last [] uid' gid' h = refl
read_up_to-update gid uid last (c ∷ cs) uid' gid' h = elim (Bool-cases (cursor_of uid gid c)) [
  | inl e ↦ rw (e, h c e) (read_up_to-update gid uid last cs uid' gid' h)
  | inr e ↦ ground (arith, e, read_up_to-update gid uid last cs uid' gid' h)
]

pub upsert-IsAccounted :
    (gid uid last old : ℕ) (rest : List Call) (db : Db)
    → IsAccounted db (call_of gid uid (has_old last old) ∷ rest)
    → any (cursor_of uid gid) db.group_read_cursors ≡ true
    → IsAccounted
        (record db {
          group_read_cursors =
              update_where (cursor_of uid gid) (advance last) db.group_read_cursors;
        })
        (call_of gid uid (moved last old) ∷ rest)
upsert-IsAccounted gid uid last old rest db v e =
    moves-IsAccounted gid uid last old _ rest db v
      (λ m p. readers-advance uid gid last m db.group_read_cursors v.distinct e)
      (advance-IsBehind last db.next_group_msg_id (cursor_of uid gid) db.group_read_cursors
        v.current.0.0 v.behind)
      (update-KeysDistinct uid gid last db.group_read_cursors v.distinct)
      (read_up_to-update gid uid last db.group_read_cursors)

pub first_upsert-IsAccounted :
    (gid uid last old : ℕ) (rest : List Call) (db : Db)
    → IsAccounted db (call_of gid uid (has_old last old) ∷ rest)
    → any (cursor_of uid gid) db.group_read_cursors ≡ false
    → IsAccounted
        (record db {
          group_read_cursors =
              record { user_id = uid; group_id = gid; last_read_msg_id = last }
              ∷ db.group_read_cursors;
        })
        (call_of gid uid (moved last old) ∷ rest)
first_upsert-IsAccounted gid uid last old rest db v e =
    moves-IsAccounted gid uid last old _ rest db v
      (λ m p. readers-cons uid gid last m db.group_read_cursors p e) (v.current.0.0, v.behind)
      (e, v.distinct)
      (λ uid' gid' h.
        rw (h (record { user_id = uid; group_id = gid; last_read_msg_id = last }) (ground arith))
          refl)
