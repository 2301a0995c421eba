-- ===== src/Tests/Pushes.antt =====
-- What is pushed, acknowledged and sent on connect: Alice (1) on connection 0, Bob (2) on
-- connection 1; or Alice alone.
use myx_im.Base.{◌≡◌, refl, List, [], ◌∷◌, map, ◌++◌, arith}
use myx_im.Base.Int.{pos}
use myx_im.Base.Outcome.{ok}
use myx_im.Model.{ChatHistoryItem, GroupHistoryItem}
use myx_im.Db.Statement.{healthy}
use myx_im.State.{Online, enqueue, get, insert_online_user, remove}
use myx_im.Dao.Chat.{get_unseen_messages}
use myx_im.Dao.GroupMessages.{get_unseen_group_messages}
use myx_im.Router.App.{AppState, frame}
use myx_im.Router.Ws.{private_chat}
use myx_im.Router.Ws.Isolated.{private_chat-isolated}
use myx_im.Router.Sync.{sync}
use myx_im.Router.Sync.Sends.{Sends}
use myx_im.Router.Sync.Order.{sync-Sends}
use myx_im.Router.Socket.{start, connect, connects, next_step}
use myx_im.Router.Sync.Later.{private_chat-sync}
use myx_im.Router.Delta.{mark_and_push}
use myx_im.Router.Delta.Senders.{mark_and_push-told}
use myx_im.Router.Ws.Groups.{Reach-Separate}
use myx_im.Dao.GroupRead.{mark_group_read_and_get_delta}
use myx_im.Tests.{db, json, chat_req}
use myx_im.Tests.Tables.{db-IsIntact}
use myx_im.Tests.Sockets.{both, both-Reach}

abbrev pub app : AppState
app = record { pool = healthy db; online = both.online }

abbrev alone : Online
alone = (connect 1 start).online

sync-Sends_example :
    (privates : List ChatHistoryItem) × (groups : List GroupHistoryItem) × (get_unseen_messages 2
        (pos 200)
        (healthy db)
      ≡ ok privates (healthy db))
    × (get_unseen_group_messages 2 (pos 200) (healthy db) ≡ ok groups (healthy db))
    × Sends 1
        (map (λ m. frame "private_push" 0 "push") privates
          ++ map (λ m. frame "group_push" 0 "group push") groups)
        app
        (sync json 2 1 app)
unfolding insert_online_user get remove
sync-Sends_example =
    sync-Sends json 2 1 (λ m. "push") (λ m. "group push") (λ m. refl) (λ m. refl) db both.online
      refl

-- Bob is sent Alice's private message and both group messages, of which one is Bob's own.
bob_synced :
    map (λ m. m.body) ((sync json 2 1 app).online.channels 1).queue
    ≡ "push" ∷ "group push" ∷ "group push" ∷ []
unfolding sync get_unseen_messages get_unseen_group_messages insert_online_user get remove
bob_synced = refl

-- Alice writes to Bob, who is not online and comes back on connection 1.
private_chat-sync_example :
    let sent = private_chat json 1 0 0 0 7 0 (record { pool = healthy db; online = alone }) in
    (older : List ChatHistoryItem) × (groups : List GroupHistoryItem) × (get_unseen_messages 2
        (pos 200)
        (healthy db)
      ≡ ok older (healthy db))
    × (get_unseen_group_messages 2 (pos 200) sent.pool ≡ ok groups sent.pool)
    × Sends 1
        (map (λ m. frame "private_push" 0 "push") older
          ++ frame "private_push" 0 "push" ∷ map (λ m. frame "group_push" 0 "group push") groups)
        (record sent { online = both.online })
        (sync json 2 1 (record sent { online = both.online }))
unfolding insert_online_user get remove
private_chat-sync_example =
    private_chat-sync json (λ m. "push") (λ m. "group push") (λ m. refl) (λ m. refl) 1 0 0 0 7 0
      chat_req db alone refl refl db-IsIntact (omega arith) both.online 1 refl

-- Bob marks the group as read, and Alice, who wrote one of its messages, is told.
mark_and_push-told_example :
    (mark_and_push json 10 2 app).online.channels 0
    ≡ enqueue (frame "group_delivery_update" 0 "group update") (both.online.channels 0)
unfolding mark_group_read_and_get_delta insert_online_user get remove
mark_and_push-told_example =
    mark_and_push-told json (λ m. "group update") (λ m. refl) 10 2 1 (record { tx = 0; alive = 0 })
      app _ _ refl (Reach-Separate both-Reach)
      (record { listed = refl; alive = refl; receiving = refl })

-- Carol (3) on connection 2 gets nothing of what Alice writes to Bob.
private_chat-isolated_example :
    (private_chat json 1 0 0 0 7 0
        (record { pool = healthy db; online = (connect 3 both).online })).online.channels
      2
    ≡ (connect 3 both).online.channels 2
private_chat-isolated_example =
    private_chat-isolated json 1 0 0 0 7 2 0 chat_req (healthy db)
      (next_step both-Reach (connects both 3)) refl (omega arith) (omega arith)
