-- ===== src/Dao/GroupRead.antt =====
-- src/dao.rs: read cursors of groups (im_group_read_cursors) and the read counts of messages.
pub mod Cursors
pub mod Counts
pub mod NewMessages
pub mod Again
pub mod CaughtUp
pub mod Outsiders
pub mod Lost
pub mod Tasks
use myx_im.Base.{
  ℕ, suc, Bool, ◌&&◌, not, Option, none, some, List, [], ◌∷◌, map, filter, any, ltb, leb, ◌==◌,
  if◌then◌else◌, update_where, sort_by, count_if,
}
use myx_im.Base.Int.{pred_ℤ}
use myx_im.Base.Outcome.{ok, err, ◌>>=◌, ◌>>◌, pure}
use myx_im.Model.{Uuid, DeltaItem}
use myx_im.Db.{Db, GroupMessage, GroupReadCursor}
use myx_im.Db.Statement.{Sql, Dao, statement, foreign_key_violation}
use myx_im.Dao.Groups.{can_belong, member_count}
use myx_im.Dao.GroupMessages.{cursor_of, read_up_to, earlier_first}

abbrev larger : ℕ → Option ℕ → Option ℕ
larger n none = some n
larger n (some m) = some (if leb n m then m else n)

-- `SELECT MAX(id) … WHERE group_id = $1`
abbrev pub max_id : Uuid → List GroupMessage → Option ℕ
max_id gid [] = none
max_id gid (m ∷ ms) =
    let rest = max_id gid ms in if m.group_id == gid then larger m.id rest else rest

-- `last_read_msg_id = GREATEST(last_read_msg_id, $3)`
abbrev pub advance : ℕ → GroupReadCursor → GroupReadCursor
advance last c = record c {
  last_read_msg_id = if leb last c.last_read_msg_id then c.last_read_msg_id else last;
}

abbrev pub upsert_group_cursor : Uuid → Uuid → ℕ → Sql (Unit {0})
upsert_group_cursor uid gid last db =
    if any (cursor_of uid gid) db.group_read_cursors
    then ok tt (record db {
      group_read_cursors = update_where (cursor_of uid gid) (advance last) db.group_read_cursors;
    })
    else if can_belong gid uid db
    then ok tt (record db {
      group_read_cursors =
          record { user_id = uid; group_id = gid; last_read_msg_id = last } ∷ db.group_read_cursors;
    })
    else err (foreign_key_violation "im_group_read_cursors") db

unfoldable pub upsert_group_read_cursor : Uuid → Uuid → ℕ → Dao (Unit {0})
upsert_group_read_cursor uid gid last = statement (upsert_group_cursor uid gid last)

-- `group_id = $1 AND id > $2 AND id <= $3 AND from_uid != $4`
abbrev pub in_delta : Uuid → ℕ → ℕ → Uuid → GroupMessage → Bool
in_delta gid old latest viewer m =
    m.group_id == gid && ltb old m.id && leb m.id latest && not (m.from_uid == viewer)

abbrev pub count_read : GroupMessage → GroupMessage
count_read m = record m { read_count = suc m.read_count }

-- `UPDATE … SET read_count = read_count + 1`, with the number of rows changed.
abbrev pub increment_reads : Uuid → ℕ → ℕ → Uuid → Sql ℕ
increment_reads gid old latest viewer db =
    ok (count_if (in_delta gid old latest viewer) db.group_messages) (record db {
      group_messages = update_where (in_delta gid old latest viewer) count_read db.group_messages;
    })

abbrev pub delta_item : Db → GroupMessage → DeltaItem
delta_item db m = record {
  msg_id = m.id;
  from_uid = m.from_uid;
  read_count = m.read_count;
  total = pred_ℤ (member_count m.group_id db);
}

abbrev pub select_delta : Uuid → ℕ → ℕ → Uuid → Sql (List DeltaItem)
select_delta gid old latest viewer db =
    ok
      (map (delta_item db)
        (sort_by earlier_first (filter (in_delta gid old latest viewer) db.group_messages)))
      db

abbrev pub delta_rows : Uuid → ℕ → ℕ → Uuid → ℕ → Dao (List DeltaItem)
delta_rows gid old latest viewer affected =
    if affected == 0 then pure [] else statement (select_delta gid old latest viewer)

-- Steps 2 to 5, where the group has messages.
abbrev pub mark_up_to : Uuid → Uuid → Option ℕ → Dao (List DeltaItem)
mark_up_to gid viewer none = pure []
mark_up_to gid viewer (some latest) = do
  old ← statement (λ db. ok (read_up_to viewer gid db.group_read_cursors) db)
  upsert_group_read_cursor viewer gid latest
  affected ← statement (increment_reads gid old latest viewer)
  delta_rows gid old latest viewer affected

unfoldable pub mark_group_read_and_get_delta : Uuid → Uuid → Dao (List DeltaItem)
unfolding upsert_group_read_cursor
mark_group_read_and_get_delta gid viewer = do
  latest ← statement (λ db. ok (max_id gid db.group_messages) db)
  mark_up_to gid viewer latest
