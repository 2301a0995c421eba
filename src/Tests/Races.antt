-- ===== src/Tests/Races.antt =====
-- Calls that mark group 10 as read, side by side: Bob's (2) and Carol's (3), or two of Bob's.
use myx_im.Base.{◌≡◌, refl, false, [], ◌∷◌, map, arith}
use myx_im.Dao.GroupRead.Counts.{CountsReads}
use myx_im.Dao.GroupRead.Tasks.{
  begun, has_latest, has_old, moved, is_active, System, takes_id, appears, begins, advances, Reach,
  here, next_step,
}
use myx_im.Dao.GroupRead.Tasks.Accounted.{call_of}
use myx_im.Dao.GroupRead.Tasks.Interleaved.{CountsAtMost, interleaved-CountsAtMost}
use myx_im.Dao.GroupRead.Tasks.Race.{run_two, in_turn, double_count}
use myx_im.Db.{GroupMessage}
use myx_im.Tests.{db, group_message}
use myx_im.Tests.GroupRead.{db-CountsReads}

abbrev quiet : System
quiet = record { db = db; calls = [] }

-- A message that Alice sends.
abbrev late : GroupMessage
late = record (group_message 3 1 0) { content = "late" }

-- Both have moved their cursors before either counts, and a message arrives in between.
abbrev side_by_side : (s : System) × Reach quiet s
side_by_side =
    let r = next_step (next_step here (begins quiet 10 2 refl)) (begins _ 10 3 refl) in
    let r2 = next_step r (advances _ (call_of 10 3 begun ∷ []) [] (call_of 10 2 begun) refl) in
    let r3 =
      next_step r2 (advances _ [] (call_of 10 2 (has_latest 2) ∷ []) (call_of 10 3 begun) refl) in
    let r4 =
      next_step (next_step r3 (takes_id _)) (appears _ (late) refl (omega arith) (omega arith)) in
    let r5 =
      next_step r4
        (advances _ (call_of 10 3 (has_latest 2) ∷ []) [] (call_of 10 2 (has_latest 2)) refl) in
    let r6 =
      next_step r5
        (advances _ (call_of 10 3 (has_latest 2) ∷ []) [] (call_of 10 2 (has_old 2 0)) refl) in
    let r7 =
      next_step r6
        (advances _ [] (call_of 10 2 (moved 2 0) ∷ []) (call_of 10 3 (has_latest 2)) refl) in
    let r8 =
      next_step r7
        (advances _ [] (call_of 10 2 (moved 2 0) ∷ []) (call_of 10 3 (has_old 2 1)) refl) in
    let r9 =
      next_step r8
        (advances _ (call_of 10 3 (moved 2 1) ∷ []) [] (call_of 10 2 (moved 2 0)) refl) in
    (_, next_step r9 (advances _ [] _ (call_of 10 3 (moved 2 1)) refl))

db-CountsAtMost : CountsAtMost db
db-CountsAtMost = record {
  bounded =
      (((omega arith), omega arith, omega arith), ((omega arith, omega arith, omega arith), tt));
  behind = db-CountsReads.behind;
  distinct = db-CountsReads.distinct;
  started = db-CountsReads.started;
}

interleaved-CountsAtMost_example : CountsAtMost side_by_side.0.db
interleaved-CountsAtMost_example = interleaved-CountsAtMost db db-CountsAtMost side_by_side.1

-- The late message has no reader, Bob's has Carol, and Alice's has both.
both_read : map (λ m. m.read_count) side_by_side.0.db.group_messages ≡ 0 ∷ 1 ∷ 2 ∷ []
both_read = refl

double_count_example :
    let end = run_two 10 2 (in_turn 5) (db, begun, begun) in
    (is_active end.1 ≡ false) × (is_active end.2 ≡ false) × (¬ CountsReads end.0)
double_count_example = double_count 10 2 2 db db-CountsReads refl refl refl
