-- ===== src/Dao/Chat.antt =====
-- src/dao.rs: private messages (im_chat_messages and im_read_cursors).
pub mod Once
pub mod Seen
pub mod Quoted
pub mod Distinct
pub mod Conversations
use myx_im.Base.{
  ℕ, suc, String, Bool, true, false, ◌&&◌, ◌||◌, not, Option, none, some, List, [], ◌∷◌, map,
  filter, find?, any, ltb, leb, ◌==◌, if◌then◌else◌, update_where, sort_by,
}
use myx_im.Base.Int.{ℤ}
use myx_im.Base.Outcome.{ok, err, ◌>>=◌, ◌>>◌, pure}
use myx_im.Model.{Uuid, Time, ChatHistoryItem, ConversationItem, User}
use myx_im.Db.{Db, ChatMessage, ReadCursor}
use myx_im.Db.Statement.{Sql, Dao, statement, or_default, row_not_found}
use myx_im.Dao.Select.{limited, before_cursor, send_time_of, user_row, same_key}

-- `id` of an optional row, where `fetch_one` wants one.
abbrev message_id : Option ChatMessage → Sql ℕ
message_id none db = err row_not_found db
message_id (some m) db = ok m.id db

abbrev pub chat_row : Db → Time → Uuid → Uuid → String → ℕ → Option String → ChatMessage
chat_row db now from_uid to_uid content msg_type cid = record {
  id = db.next_chat_id;
  from_uid = from_uid;
  to_uid = to_uid;
  content = content;
  msg_type = msg_type;
  seen = false;
  client_msg_id = cid;
  created_at = now;
}

-- The insertion without a conflict. The sequence advances.
abbrev pub insert_chat_message : Time → Uuid → Uuid → String → ℕ → Option String → Sql ℕ
insert_chat_message now from_uid to_uid content msg_type cid db = ok db.next_chat_id (record db {
  chat_messages = chat_row db now from_uid to_uid content msg_type cid ∷ db.chat_messages;
  next_chat_id = suc db.next_chat_id;
})

-- `ON CONFLICT (client_msg_id) DO NOTHING RETURNING id`: no row on a conflict, and the sequence
-- has advanced all the same.
abbrev pub insert_unless_sent : Time → Uuid → Uuid → String → ℕ → String → Sql (Option ℕ)
insert_unless_sent now from_uid to_uid content msg_type cid db =
    if any (λ m. same_key m.client_msg_id cid) db.chat_messages
    then ok none (record db { next_chat_id = suc db.next_chat_id })
    else ok (some db.next_chat_id) (record db {
      chat_messages =
          chat_row db now from_uid to_uid content msg_type (some cid) ∷ db.chat_messages;
      next_chat_id = suc db.next_chat_id;
    })

-- `SELECT id FROM im_chat_messages WHERE client_msg_id = $1`, by `fetch_one`.
abbrev pub sent_message_id : String → Sql ℕ
sent_message_id cid db = message_id (find? (λ m. same_key m.client_msg_id cid) db.chat_messages) db

abbrev pub reuse_sent : String → Option ℕ → Dao ℕ
reuse_sent cid (some id) = pure id
reuse_sent cid none = statement (sent_message_id cid)

unfoldable pub persist_chat_message : Time → Uuid → Uuid → String → ℕ → Option String → Dao ℕ
persist_chat_message now from_uid to_uid content msg_type (some cid) = do
  inserted ← statement (insert_unless_sent now from_uid to_uid content msg_type cid)
  reuse_sent cid inserted
persist_chat_message now from_uid to_uid content msg_type none =
    statement (insert_chat_message now from_uid to_uid content msg_type none)

-- `from_uid = $1 AND to_uid = $2 AND seen = FALSE`
abbrev pub unseen_from : Uuid → Uuid → ChatMessage → Bool
unseen_from from_uid to_uid m = m.from_uid == from_uid && m.to_uid == to_uid && not m.seen

abbrev pub see : ChatMessage → ChatMessage
see m = record m { seen = true }

-- `UPDATE … SET seen = TRUE WHERE … RETURNING id`
abbrev pub mark_seen : Uuid → Uuid → Sql (List ℕ)
mark_seen from_uid to_uid db =
    ok (map (λ m. m.id) (filter (unseen_from from_uid to_uid) db.chat_messages)) (record db {
      chat_messages = update_where (unseen_from from_uid to_uid) see db.chat_messages;
    })

unfoldable pub mark_seen_from_peer : Uuid → Uuid → Dao (List ℕ)
mark_seen_from_peer from_uid to_uid = statement (mark_seen from_uid to_uid)

abbrev pub history_item : ChatMessage → ChatHistoryItem
history_item m = record {
  msg_id = m.id;
  from_uid = m.from_uid;
  to_uid = m.to_uid;
  content = m.content;
  msg_type = m.msg_type;
  seen = m.seen;
  send_time = send_time_of m.created_at;
}

abbrev pub between : Uuid → Uuid → ChatMessage → Bool
between a b m = (m.from_uid == a && m.to_uid == b) || (m.from_uid == b && m.to_uid == a)

abbrev pub later_first : ChatMessage → ChatMessage → Bool
later_first m n = leb n.id m.id

abbrev pub earlier_first : ChatMessage → ChatMessage → Bool
earlier_first m n = leb m.id n.id

-- The page of the history of two users, without its limit.
abbrev pub chat_page : Uuid → Uuid → Option ℤ → Db → List ChatMessage
chat_page a b before db =
    sort_by later_first (filter (λ m. between a b m && before_cursor m.id before) db.chat_messages)

abbrev pub select_history : Uuid → Uuid → Option ℤ → ℤ → Sql (List ChatHistoryItem)
select_history a b before limit db = limited limit (map history_item (chat_page a b before db)) db

unfoldable pub get_chat_history : Uuid → Uuid → Option ℤ → ℤ → Dao (List ChatHistoryItem × List ℕ)
get_chat_history a b before limit = do
  seen_ids ← or_default [] (statement (mark_seen b a))
  rows ← statement (select_history a b before limit)
  pure (rows, seen_ids)

abbrev pub select_unseen : Uuid → ℤ → Sql (List ChatHistoryItem)
select_unseen uid limit db =
    limited limit
      (map history_item
        (sort_by earlier_first (filter (λ m. m.to_uid == uid && not m.seen) db.chat_messages)))
      db

unfoldable pub get_unseen_messages : Uuid → ℤ → Dao (List ChatHistoryItem)
get_unseen_messages uid limit = statement (select_unseen uid limit)

abbrev pub read_cursor_of : Uuid → Uuid → ReadCursor → Bool
read_cursor_of user_id peer_uid c = c.user_id == user_id && c.peer_uid == peer_uid

-- `INSERT … ON CONFLICT (user_id, peer_uid) DO UPDATE SET … GREATEST(…)`
abbrev pub upsert_cursor : Uuid → Uuid → ℕ → Sql (Unit {0})
upsert_cursor user_id peer_uid last db = ok tt (record db {
  read_cursors =
      if any (read_cursor_of user_id peer_uid) db.read_cursors
      then update_where (read_cursor_of user_id peer_uid)
          (λ c. record c {
            last_read_msg_id = if leb last c.last_read_msg_id then c.last_read_msg_id else last;
          })
          db.read_cursors
      else record { user_id = user_id; peer_uid = peer_uid; last_read_msg_id = last }
        ∷ db.read_cursors;
})

unfoldable pub upsert_read_cursor : Uuid → Uuid → ℕ → Dao (Unit {0})
upsert_read_cursor user_id peer_uid last = statement (upsert_cursor user_id peer_uid last)

-- `CASE WHEN m.from_uid = $1 THEN m.to_uid ELSE m.from_uid END`
abbrev pub peer_of : Uuid → ChatMessage → Uuid
peer_of uid m = if m.from_uid == uid then m.to_uid else m.from_uid

-- `ORDER BY peer_uid, m.id DESC`
abbrev by_peer : Uuid → ChatMessage → ChatMessage → Bool
by_peer uid m n =
    ltb (peer_of uid m) (peer_of uid n) || (peer_of uid m == peer_of uid n && leb n.id m.id)

-- `DISTINCT ON (peer_uid)`: of neighbours with the same peer the first stays.
abbrev distinct_on : Uuid → Option Uuid → List ChatMessage → List ChatMessage
distinct_on uid last [] = []
distinct_on uid none (m ∷ ms) = m ∷ distinct_on uid (some (peer_of uid m)) ms
distinct_on uid (some p) (m ∷ ms) =
    let rest = distinct_on uid (some (peer_of uid m)) ms in
    if peer_of uid m == p then rest else m ∷ rest

abbrev pub conversation_item : Uuid → ChatMessage → User → ConversationItem
conversation_item uid m u = record {
  peer_uid = peer_of uid m;
  peer_name = u.username;
  last_msg = m.content;
  last_msg_type = m.msg_type;
  last_time = send_time_of m.created_at;
  last_msg_id = m.id;
}

abbrev has_peer : Uuid → List User → ChatMessage → Bool
has_peer uid users m = any (λ u. u.id == peer_of uid m) users

abbrev join_peer : Uuid → List User → List ChatMessage → List ConversationItem
join_peer uid users [] = []
join_peer uid users (m ∷ ms) =
    let rest = join_peer uid users ms in
    elim (user_row (peer_of uid m) users) [
      | none ↦ rest
      | some u ↦ conversation_item uid m u ∷ rest
    ]

abbrev pub select_conversations : Uuid → Sql (List ConversationItem)
select_conversations uid db =
    ok
      (join_peer uid db.users (
        distinct_on uid none (
          sort_by (by_peer uid) (
            filter (λ m. (m.from_uid == uid || m.to_uid == uid) && has_peer uid db.users m)
              db.chat_messages))))
      db

unfoldable pub get_conversations : Uuid → Dao (List ConversationItem)
get_conversations uid = statement (select_conversations uid)
