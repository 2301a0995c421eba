-- ===== src/Tests/Writes.antt =====
-- The statements of src/dao.rs, one after the other: those of a run of the server, and those of two
-- operations that take turns.
use myx_im.Base.{find?, some, ◌≡◌, refl, []}
use myx_im.Db.{Db, ChatMessage}
use myx_im.Dao.Friends.{add_friend}
use myx_im.Dao.Graph.{IsGraph}
use myx_im.Dao.Integrity.{IsIntact}
use myx_im.Dao.Writes.{
  Writes, here, then_write, marks_seen, deletes_sent, befriends, increments_reads,
  upserts_group_cursor, inserts_chat_message,
}
use myx_im.Dao.Writes.Tables.{Writes-IsIntact}
use myx_im.Dao.Writes.Kept.{stored-Writes}
use myx_im.Dao.Writes.Chats
use myx_im.Dao.Writes.GroupChats.{read_count-Writes}
use myx_im.Dao.Writes.GroupChats
use myx_im.Router.Server.{started}
use myx_im.Router.Server.Integrity.{started-IsIntact}
use myx_im.Router.Server.Refinement.{started-IsGraph}
use myx_im.Router.Server.Writes.{Runs-Writes}
use myx_im.Tests.{db, json, config, greeting, group_message}
use myx_im.Tests.Tables.{db-IsIntact}
use myx_im.Tests.Requests.{extract, trusting, text_order, served}

Runs-Writes_example : Writes started.pool.db served.0.pool.db
Runs-Writes_example = Runs-Writes extract json trusting config text_order text_order served.1

Writes-IsIntact_example : IsIntact served.0.pool.db × IsGraph served.0.pool.db
Writes-IsIntact_example =
    Writes-IsIntact started-IsIntact started-IsGraph
      (Runs-Writes extract json trusting config text_order text_order served.1)

-- Bob marks the group and Alice's message as read while Alice writes again and Carol's account goes.
abbrev mixed : (d : Db) × Writes db d
mixed =
    let w = then_write (then_write here (upserts_group_cursor 2 10 2)) (marks_seen 1 2) in
    let w2 = then_write (then_write w (deletes_sent 3)) (inserts_chat_message 9 1 2 "again" 1) in
    (_, then_write (then_write w2 (increments_reads 10 0 2 2)) (befriends 9 1 2 []))

stored-Writes_example :
    (n : ChatMessage) × (find? (Chats.has_id 1) mixed.0.chat_messages ≡ some n)
    × Chats.Continues greeting n
unfolding add_friend
stored-Writes_example = stored-Writes 1 greeting db-IsIntact refl mixed.1 refl

-- Carol had read Alice's message in the group, and now Bob has too.
read_count-Writes_example : GroupChats.Continues (group_message 1 1 1) (group_message 1 1 2)
unfolding add_friend
read_count-Writes_example =
    read_count-Writes 1 (group_message 1 1 1) (group_message 1 1 2) db-IsIntact refl mixed.1 refl
