-- ===== src/Dao/GroupRead/Lost.antt =====
-- src/dao.rs, mark_group_read_and_get_delta runs its statements without a transaction: what happens
-- when the connection fails after the cursor has moved.
use myx_im.Base.{
  ℕ, ◌+◌, ◌<◌, ◌≡◌, refl, String, true, none, some, List, [], ◌∷◌, inl, inr, any, arith, Bool-cases,
  update_where, if◌then◌else◌,
}
use myx_im.Base.Outcome.{ok, err, state_of}
use myx_im.Base.Rows.{All}
use myx_im.Db.{Db, GroupMessage, GroupReadCursor}
use myx_im.Db.Statement.{Pool, healthy, connection}
use myx_im.Dao.Groups.{can_belong}
use myx_im.Dao.GroupMessages.{cursor_of, read_up_to}
use myx_im.Dao.GroupRead.{advance, in_delta, max_id, mark_group_read_and_get_delta}
use myx_im.Dao.GroupRead.Cursors.{
  readers, newly, readers-advance, readers-cons, update-KeysDistinct,
}
use myx_im.Dao.GroupRead.Counts.{CountsReads, IsCounted}
use myx_im.Dao.GroupRead.Again.{up_to_date, advanced-IsUpToDate, first-IsUpToDate}

-- The first three statements pass, the `UPDATE` of the counts fails with the message.
abbrev pub fails_at_increment : String → Db → Pool
fails_at_increment msg db = record { db = db; faults = none ∷ none ∷ none ∷ some msg ∷ [] }

-- Rows cannot be right for both sets of cursors where a message is in the delta.
uncounted :
    (gid uid last next : ℕ) (cs cs' : List GroupReadCursor)
    → ((m : GroupMessage) → 0 < m.id → readers m cs' ≡ readers m cs + newly uid gid last m cs)
    → (ms : List GroupMessage) → All (IsCounted cs next) ms
    → any (in_delta gid (read_up_to uid gid cs) last uid) ms ≡ true
    → ¬ All (IsCounted cs' next) ms
uncounted gid uid last next cs cs' h [] a e b = cc
uncounted gid uid last next cs cs' h (m ∷ ms) a e b =
    elim (Bool-cases (in_delta gid (read_up_to uid gid cs) last uid m)) [
      | inl d ↦ ground (arith, h m a.0.1, d)
      | inr d ↦ uncounted gid uid last next cs cs' h ms a.1 (ground arith) b.1
    ]

-- The cursors after the upsert.
abbrev pub upserted : ℕ → ℕ → ℕ → Db → List GroupReadCursor
upserted gid uid last db =
    if any (cursor_of uid gid) db.group_read_cursors
    then update_where (cursor_of uid gid) (advance last) db.group_read_cursors
    else record { user_id = uid; group_id = gid; last_read_msg_id = last } ∷ db.group_read_cursors

module _ (gid uid last : ℕ) (db : Db) (v : CountsReads db) where
  pub readers-upserted :
      (m : GroupMessage)
      → 0 < m.id
      → readers m (upserted gid uid last db)
        ≡ readers m db.group_read_cursors + newly uid gid last m db.group_read_cursors
  readers-upserted m p = elim (Bool-cases (any (cursor_of uid gid) db.group_read_cursors)) [
    | inl c ↦ rw c (readers-advance uid gid last m db.group_read_cursors v.distinct c)
    | inr c ↦ rw c (readers-cons uid gid last m db.group_read_cursors p c)
  ]

  -- No later call repairs the counts: it finds nothing new.
  upserted_twice :
      max_id gid db.group_messages ≡ some last
      → mark_group_read_and_get_delta gid uid
          (healthy (record db { group_read_cursors = upserted gid uid last db }))
        ≡ ok [] (healthy (record db { group_read_cursors = upserted gid uid last db }))
  upserted_twice e = elim (Bool-cases (any (cursor_of uid gid) db.group_read_cursors)) [
    | inl c ↦ rw c (
        up_to_date gid uid _ (update-KeysDistinct uid gid last db.group_read_cursors v.distinct)
          (advanced-IsUpToDate gid uid last db e db.group_messages refl c))
    | inr c ↦ rw c (
        up_to_date gid uid _ (c, v.distinct)
          (first-IsUpToDate gid uid last db e db.group_messages refl))
  ]

fault_state :
    (gid uid last : ℕ) (msg : String) (db : Db)
    → max_id gid db.group_messages ≡ some last
    → can_belong gid uid db ≡ true
    → mark_group_read_and_get_delta gid uid (fails_at_increment msg db)
      ≡ err (connection msg) (healthy (record db { group_read_cursors = upserted gid uid last db }))
unfolding mark_group_read_and_get_delta
fault_state gid uid last msg db e b =
    elim (Bool-cases (any (cursor_of uid gid) db.group_read_cursors)) [
      | inl c ↦ rw (e, c, mark_group_read_and_get_delta)
      | inr c ↦ rw (e, c, b, mark_group_read_and_get_delta)
    ]

-- The bug: where the `UPDATE` of the counts fails after the cursor has moved, and some message is
-- new to the user, a read count is wrong afterwards, and the next call (with no failure) returns
-- no delta and repairs nothing.
pub mark_group_read_lost :
    (gid uid last : ℕ) (msg : String) (db : Db)
    → CountsReads db
    → max_id gid db.group_messages ≡ some last
    → can_belong gid uid db ≡ true
    → any (in_delta gid (read_up_to uid gid db.group_read_cursors) last uid) db.group_messages
      ≡ true
    → let after =
        (state_of (mark_group_read_and_get_delta gid uid (fails_at_increment msg db))).db in
      (¬ CountsReads after)
      × (mark_group_read_and_get_delta gid uid (healthy after) ≡ ok [] (healthy after))
mark_group_read_lost gid uid last msg db v e b n = rw (fault_state gid uid last msg db e b) (
  (λ w.
      uncounted gid uid last db.next_group_msg_id db.group_read_cursors (upserted gid uid last db)
        (readers-upserted gid uid last db v) db.group_messages v.counted n w.counted),
  upserted_twice gid uid last db v e,
)
