-- ===== src/Dao/GroupMessages.antt =====
-- src/dao.rs: the messages of groups (im_group_messages).
pub mod Outsiders
pub mod Unseen
use myx_im.Base.{
  ℕ, suc, String, Bool, ◌&&◌, Option, none, some, List, [], ◌∷◌, filter, find?, any, ltb, leb, ◌==◌,
  if◌then◌else◌, sort_by,
}
use myx_im.Base.Int.{ℤ, pred_ℤ}
use myx_im.Base.Outcome.{Outcome, ok, err, ◌>>=◌, ◌>>◌, pure}
use myx_im.Model.{Uuid, Time, User, GroupHistoryItem}
use myx_im.Db.{Db, GroupMessage, GroupReadCursor}
use myx_im.Db.Statement.{Sql, Dao, statement, foreign_key_violation, row_not_found, DbError}
use myx_im.Dao.Select.{limited, before_cursor, send_time_of, user_row, same_key}
use myx_im.Dao.Groups.{is_member, member_count, can_belong}

abbrev group_message_id : Option GroupMessage → Sql ℕ
group_message_id none db = err row_not_found db
group_message_id (some m) db = ok m.id db

abbrev pub group_row : Db → Time → Uuid → Uuid → String → ℕ → Option String → GroupMessage
group_row db now gid from_uid content msg_type cid = record {
  id = db.next_group_msg_id;
  group_id = gid;
  from_uid = from_uid;
  content = content;
  msg_type = msg_type;
  client_msg_id = cid;
  read_count = 0;
  created_at = now;
}

-- The insertion; the group and the sender must exist. The sequence advances in any case.
abbrev pub insert_group_message : Time → Uuid → Uuid → String → ℕ → Option String → Sql ℕ
insert_group_message now gid from_uid content msg_type cid db =
    if can_belong gid from_uid db
    then ok db.next_group_msg_id (record db {
      group_messages = group_row db now gid from_uid content msg_type cid ∷ db.group_messages;
      next_group_msg_id = suc db.next_group_msg_id;
    })
    else err (foreign_key_violation "im_group_messages")
        (record db { next_group_msg_id = suc db.next_group_msg_id })

abbrev pub was_sent : String → GroupMessage → Bool
was_sent cid m = same_key m.client_msg_id cid

abbrev pub some_id : Outcome Db DbError ℕ → Outcome Db DbError (Option ℕ)
some_id (ok id db) = ok (some id) db
some_id (err e db) = err e db

-- `ON CONFLICT (client_msg_id) DO NOTHING RETURNING id`
abbrev pub insert_group_unless_sent : Time → Uuid → Uuid → String → ℕ → String → Sql (Option ℕ)
insert_group_unless_sent now gid from_uid content msg_type cid db =
    if any (was_sent cid) db.group_messages
    then ok none (record db { next_group_msg_id = suc db.next_group_msg_id })
    else some_id (insert_group_message now gid from_uid content msg_type (some cid) db)

abbrev pub sent_group_message_id : String → Sql ℕ
sent_group_message_id cid db = group_message_id (find? (was_sent cid) db.group_messages) db

abbrev pub reuse_sent : String → Option ℕ → Dao ℕ
reuse_sent cid (some id) = pure id
reuse_sent cid none = statement (sent_group_message_id cid)

unfoldable pub persist_group_message : Time → Uuid → Uuid → String → ℕ → Option String → Dao ℕ
persist_group_message now gid from_uid content msg_type (some cid) = do
  inserted ← statement (insert_group_unless_sent now gid from_uid content msg_type cid)
  reuse_sent cid inserted
persist_group_message now gid from_uid content msg_type none =
    statement (insert_group_message now gid from_uid content msg_type none)

abbrev group_history_item : Db → GroupMessage → User → GroupHistoryItem
group_history_item db m u = record {
  msg_id = m.id;
  group_id = m.group_id;
  from_uid = m.from_uid;
  from_name = u.username;
  content = m.content;
  msg_type = m.msg_type;
  send_time = send_time_of m.created_at;
  read_count = m.read_count;
  total = pred_ℤ (member_count m.group_id db);
}

-- The join of messages with their senders.
abbrev pub join_senders : Db → List GroupMessage → List GroupHistoryItem
join_senders db [] = []
join_senders db (m ∷ ms) =
    let rest = join_senders db ms in
    elim (user_row m.from_uid db.users) [ none ↦ rest | some u ↦ group_history_item db m u ∷ rest ]

abbrev pub later_first : GroupMessage → GroupMessage → Bool
later_first m n = leb n.id m.id

abbrev pub earlier_first : GroupMessage → GroupMessage → Bool
earlier_first m n = leb m.id n.id

unfoldable pub get_group_history : Uuid → Option ℤ → ℤ → Dao (List GroupHistoryItem)
get_group_history gid before limit = statement (λ db.
    limited limit
      (join_senders db (
        sort_by later_first
          (filter (λ m. m.group_id == gid && before_cursor m.id before) db.group_messages)))
      db)

abbrev pub cursor_of : Uuid → Uuid → GroupReadCursor → Bool
cursor_of uid gid c = c.user_id == uid && c.group_id == gid

abbrev last_read : Option GroupReadCursor → ℕ
last_read none = 0
last_read (some c) = c.last_read_msg_id

-- `COALESCE(cr.last_read_msg_id, 0)` of a user in a group.
abbrev pub read_up_to : Uuid → Uuid → List GroupReadCursor → ℕ
read_up_to uid gid cs = last_read (find? (cursor_of uid gid) cs)

abbrev pub is_unread : Uuid → Db → GroupMessage → Bool
is_unread uid db m = ltb (read_up_to uid m.group_id db.group_read_cursors) m.id

unfoldable pub get_unseen_group_messages : Uuid → ℤ → Dao (List GroupHistoryItem)
get_unseen_group_messages uid limit = statement (λ db.
    limited limit
      (join_senders db (sort_by earlier_first (filter (is_unread uid db) db.group_messages))) db)

abbrev pub bump_count : Uuid → List (Uuid × ℕ) → List (Uuid × ℕ)
bump_count gid [] = (gid, 1) ∷ []
bump_count gid ((g, n) ∷ rest) =
    let others = bump_count gid rest in if g == gid then (g, suc n) ∷ rest else (g, n) ∷ others

-- `COUNT(gm.id) … GROUP BY gm.group_id`
abbrev pub count_by_group : List GroupMessage → List (Uuid × ℕ)
count_by_group [] = []
count_by_group (m ∷ ms) = bump_count m.group_id (count_by_group ms)

unfoldable pub get_unseen_group_counts : Uuid → Dao (List (Uuid × ℕ))
get_unseen_group_counts uid = statement (λ db.
    ok
      (count_by_group
        (filter (λ m. is_member m.group_id uid db && is_unread uid db m) db.group_messages))
      db)
