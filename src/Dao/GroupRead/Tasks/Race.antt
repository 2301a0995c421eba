-- ===== src/Dao/GroupRead/Tasks/Race.antt =====
-- src/dao.rs, mark_group_read_and_get_delta: two calls of one user in one group, side by side.
use myx_im.Base.{
  ℕ, zero, suc, ◌≡◌, ◌∙◌, refl, sym, subst, Bool, true, false, some, List, [], ◌∷◌, inl, inr, any,
  ◌==◌, update_where, Bool-cases, if◌then◌else◌,
}
use myx_im.Model.{Uuid}
use myx_im.Db.{Db}
use myx_im.Dao.Groups.{can_belong}
use myx_im.Dao.GroupMessages.{read_up_to}
use myx_im.Dao.GroupRead.{in_delta, count_read, max_id, upsert_group_cursor}
use myx_im.Dao.GroupRead.Counts.{CountsReads}
use myx_im.Dao.GroupRead.Lost.{upserted, readers-upserted}
use myx_im.Dao.GroupRead.Tasks.{
  Task, begun, moved, counted, returned, after_latest, after_upsert, is_active, advance_task,
}
use myx_im.Dao.GroupRead.Tasks.Twice.{IsCounted-twice, upserted_again, upsert_of_member}

-- Two calls of a user in a group; each entry says whether the second one goes on.
abbrev pub run_two : Uuid → Uuid → List Bool → Db × Task × Task → Db × Task × Task
run_two gid uid [] s = s
run_two gid uid (false ∷ turns) (db, t, u) =
    run_two gid uid turns ((advance_task gid uid t db).0, (advance_task gid uid t db).1, u)
run_two gid uid (true ∷ turns) (db, t, u) =
    run_two gid uid turns ((advance_task gid uid u db).0, t, (advance_task gid uid u db).1)

-- The calls take turns.
abbrev pub in_turn : ℕ → List Bool
in_turn zero = []
in_turn (suc n) = false ∷ (true ∷ in_turn n)

-- After its `UPDATE` of the counts a call changes nothing and ends with its next statement.
ends :
    (gid uid last old n : ℕ) (db : Db)
    → ((advance_task gid uid (if n == 0 then returned [] else counted last old) db).0 ≡ db)
      × (is_active (advance_task gid uid (if n == 0 then returned [] else counted last old) db).1
          ≡ false)
ends gid uid last old n db = elim (Bool-cases (n == 0)) [
  | inl e ↦ rw e (refl, refl)
  | inr e ↦ rw e (refl, refl)
]

abbrev read_twice : Uuid → ℕ → ℕ → Uuid → Db → Db
read_twice gid old last uid db = record db {
  group_messages =
      update_where (in_delta gid old last uid) count_read
        (update_where (in_delta gid old last uid) count_read db.group_messages);
}

-- Both calls have moved the cursor.
last_turns :
    (gid uid last old : ℕ) (db : Db)
    → let end = run_two gid uid (in_turn 2) (db, moved last old, moved last old) in
      (end.0 ≡ read_twice gid old last uid db)
      × (is_active end.1 ≡ false)
      × (is_active end.2 ≡ false)
last_turns gid uid last old db =
    let after_first = ends gid uid last old _ (read_twice gid old last uid db) in
    let after_second = ends gid uid last old _ _ in
    (after_second.0 ∙ after_first.0, after_first.1, after_second.1)

-- Both calls have ended, and the read counts are wrong.
abbrev IsDoubled : Db × Task × Task → Type 0
IsDoubled end = (is_active end.1 ≡ false) × (is_active end.2 ≡ false) × (¬ CountsReads end.0)

last_turns-IsDoubled :
    (gid uid last : ℕ) (db : Db)
    → CountsReads db
    → any (in_delta gid (read_up_to uid gid db.group_read_cursors) last uid) db.group_messages
      ≡ true
    → let old = read_up_to uid gid db.group_read_cursors in
      IsDoubled (
        run_two gid uid (in_turn 2) (
          record db { group_read_cursors = upserted gid uid last db },
          moved last old,
          moved last old,
        ))
last_turns-IsDoubled gid uid last db v n =
    let old : ℕ = read_up_to uid gid db.group_read_cursors in
    let moved_db : Db = record db { group_read_cursors = upserted gid uid last db } in
    let l = last_turns gid uid last old moved_db in
    (
      l.1,
      l.2,
      subst (λ q. ¬ CountsReads q) (sym l.0)
          (λ w.
            IsCounted-twice gid uid last db.next_group_msg_id db.group_read_cursors
              (upserted gid uid last db) (readers-upserted gid uid last db v) db.group_messages
              v.counted n w.counted),
    )

-- The bug: from right read counts, where a user who exists, in a group that exists with a message
-- that is new to the user, has two calls of mark_group_read_and_get_delta on the way in the group that take turns statement by
-- statement, both calls end and a read count is wrong afterwards.
pub double_count :
    (gid uid last : ℕ) (db : Db)
    → CountsReads db
    → max_id gid db.group_messages ≡ some last
    → can_belong gid uid db ≡ true
    → any (in_delta gid (read_up_to uid gid db.group_read_cursors) last uid) db.group_messages
      ≡ true
    → let end = run_two gid uid (in_turn 5) (db, begun, begun) in
      (is_active end.1 ≡ false) × (is_active end.2 ≡ false) × (¬ CountsReads end.0)
double_count gid uid last db v e b n =
    let old : ℕ = read_up_to uid gid db.group_read_cursors in
    subst (λ r. IsDoubled (run_two gid uid (in_turn 4) (db, after_latest r, after_latest r)))
      (sym e)
      (subst
        (λ r. IsDoubled (
          run_two gid uid (in_turn 2) (
            (after_upsert last old
                (upsert_group_cursor uid gid last (after_upsert last old r).0)).0,
            (after_upsert last old r).1,
            (after_upsert last old
                (upsert_group_cursor uid gid last (after_upsert last old r).0)).1,
          )))
        (sym (upsert_of_member gid uid last db b))
        (subst
          (λ r. IsDoubled (
            run_two gid uid (in_turn 2)
              ((after_upsert last old r).0, moved last old, (after_upsert last old r).1)))
          (sym (upserted_again gid uid last db v.distinct))
          (last_turns-IsDoubled gid uid last db v n)))
