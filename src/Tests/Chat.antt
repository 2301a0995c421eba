-- ===== src/Tests/Chat.antt =====
-- Private messages, friends and members at work.
use myx_im.Base.{
  ℕ, suc, filter, take, arith, ◌≡◌, ◌⊎◌, refl, true, false, ◌&&◌, ◌||◌, none, some, List, ◌==◌, [],
  ◌∷◌, any, map, if◌then◌else◌,
}
use myx_im.Base.Outcome.{ok, err}
use myx_im.Base.Int.{pos}
use myx_im.Base.Rows.{All}
use myx_im.Db.{Db, ChatMessage}
use myx_im.Db.Statement.{healthy, Pool, DbError}
use myx_im.Dao.Chat.{
  get_conversations, conversation_item, chat_page, persist_chat_message, get_chat_history,
  history_item, unseen_from,
}
use myx_im.Dao.Chat.Conversations.{get_conversations-first}
use myx_im.Dao.Chat.Once.{persist_chat_message_once}
use myx_im.Dao.Chat.Seen.{get_chat_history_lem, unseen_ids, seen_from, IsPage}
use myx_im.Dao.Friends.{add_friend, are_friends}
use myx_im.Dao.Friends.Pairs.{add_friend_lem}
use myx_im.Dao.Delete.{delete_user}
use myx_im.Dao.Delete.NoTrace.{NoTrace, delete_user-NoTrace}
use myx_im.Model.{ConversationItem}
use myx_im.Tests.{db, account}

delete_user-NoTrace_example :
    (db' : Db) × (delete_user 1 (healthy db) ≡ ok tt (healthy db')) × NoTrace 1 db'
delete_user-NoTrace_example = delete_user-NoTrace 1 db

-- Bob reuses the client id of Alice's message: his own is not stored.
persist_chat_message_once_example :
    (id : ℕ) × (db' : Db) × (persist_chat_message 0 1 2 "hi" 1 (some "a-1") (healthy db)
      ≡ ok id (healthy db'))
    × (persist_chat_message 9 2 3 "other" 1 (some "a-1") (healthy db')
        ≡ ok id (healthy (record db' { next_chat_id = suc db'.next_chat_id })))
persist_chat_message_once_example = persist_chat_message_once 0 1 2 "hi" 1 9 2 3 "other" 1 "a-1" db

get_chat_history_lem_example :
    (page : List ChatMessage) × (get_chat_history 2 1 none (pos 50) (healthy db)
      ≡ ok (map history_item page, unseen_ids 1 2 db) (healthy (seen_from 1 2 db)))
    × IsPage 2 1 none 50 page
    × All (λ m. unseen_from 1 2 m ≡ false) page
    × (any (unseen_from 1 2) (seen_from 1 2 db).chat_messages ≡ false)
get_chat_history_lem_example = get_chat_history_lem 2 1 none 50 db

-- The second insertion fails.
abbrev failing : Pool
failing = record { db = db; faults = none ∷ none ∷ some "down" ∷ [] }

add_friend_lem_example :
    ((q : Pool) × (add_friend 0 1 2 failing ≡ ok tt q)
      × ((x y : ℕ)
          → are_friends x y q.db
            ≡ (if (1 == x && 2 == y) || (2 == x && 1 == y) then true else are_friends x y db)))
    ⊎ ((e : DbError) × (q : Pool) × (add_friend 0 1 2 failing ≡ err e q) × (q.db ≡ db))
add_friend_lem_example = add_friend_lem 0 1 2 failing

-- Bob's conversations have Alice, with the only message between the two.
get_conversations-first_example :
    (items : List ConversationItem) × (get_conversations 2 (healthy db) ≡ ok items (healthy db))
    × (filter (λ i. i.peer_uid == 1) items
        ≡ map (λ m. conversation_item 2 m (account 1 "alice")) (take 1 (chat_page 2 1 none db)))
get_conversations-first_example =
    get_conversations-first 2 1 (account 1 "alice") db refl (omega arith, tt)
