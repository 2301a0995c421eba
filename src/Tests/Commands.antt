-- ===== src/Tests/Commands.antt =====
-- The commands of a WebSocket and the HTTP handlers at work. Alice (1) has connection 0 and Bob (2)
-- connection 1.
use myx_im.Base.{ℕ, map, [], ◌∷◌, some, any, true, not, ◌&&◌, ◌==◌, same, ◌≡◌, refl, none, arith}
use myx_im.Base.Outcome.{state_of}
use myx_im.Db.{Db}
use myx_im.Db.Statement.{healthy}
use myx_im.State.{get, insert_online_user, enqueue, remove}
use myx_im.Dao.GroupMessages.{persist_group_message}
use myx_im.Router.App.{AppState, frame}
use myx_im.Router.Server.Authors.{IsAuthored, handle_biz_msg-IsAuthored}
use myx_im.Router.Ws.{handle_biz_msg}
use myx_im.Router.App.{Json}
use myx_im.Dao.Groups.{is_group_member, get_group_member_uids}
use myx_im.Router.Ws.{group_chat, private_chat}
use myx_im.Router.Ws.Groups.{Reach-Separate}
use myx_im.Router.Ws.GroupChat.{group_chat-once}
use myx_im.Jwt.{Crypto, verify_token}
use myx_im.Base.Int.{pos}
use myx_im.Dao.Delete.NoTrace.{NoTrace}
use myx_im.Router.Http.{user_delete_handler}
use myx_im.Router.Ws.Deleted.{user_delete-private_chat}
use myx_im.Tests.{config, crypto, chat_req, db, json, group_req}
use myx_im.Tests.Sockets.{both, both-Reach}

abbrev app : AppState
app = record { pool = healthy db; online = both.online }

abbrev stored : Db
stored = (state_of (persist_group_message 0 10 1 "hello all" 1 none (healthy db))).db

group_chat-once_example :
    (group_chat json 1 0 0 0 7 0 app).online.channels 1
    ≡ enqueue (frame "group_push" 0 "group push") (both.online.channels 1)
unfolding persist_group_message insert_online_user get remove
group_chat-once_example =
    group_chat-once json 1 0 0 0 7 0 group_req db both.online refl 3 stored "group push" 2
      (record { tx = 1; alive = 1 }) refl refl refl (Reach-Separate both-Reach)
      (refl, (refl, (refl, tt))) (record { listed = refl; alive = refl; receiving = refl })
      (omega arith) (omega arith) refl

-- Alice deletes her account and writes to Bob.
abbrev trusting : Crypto
trusting = record crypto {
  decode = λ secret now token. some (record { user_id = 1; exp = pos 90000; iat = 0 });
}

user_delete-private_chat_example :
    let after = (user_delete_handler trusting 0 config "token" app).1 in
    NoTrace 1 after.pool.db
    × (any
          (λ m. m.from_uid == 1 && m.to_uid == 2 && not m.seen && same m.content "hi again")
          (private_chat json 1 0 0 0 7 0 after).pool.db.chat_messages
        ≡ true)
unfolding verify_token
user_delete-private_chat_example =
    user_delete-private_chat trusting 0 config "token"
      (record { user_id = 1; exp = pos 90000; iat = 0 }) db both.online refl json 0 0 0 7 0 chat_req
      refl refl

-- Every text is the command to send the group message.
abbrev sending : Json ℕ
sending = record json { message = λ t. some (record { cmd = "group_chat"; seq = 7; payload = 0 }) }

-- Alice's message is stored with her as its sender.
from_alice :
    map (λ m. m.from_uid) (handle_biz_msg sending 1 0 0 0 "" app).pool.db.group_messages
    ≡ 1 ∷ 2 ∷ 1 ∷ []
unfolding handle_biz_msg group_chat is_group_member persist_group_message get_group_member_uids
from_alice = refl

handle_biz_msg-IsAuthored_example : IsAuthored db 1 (handle_biz_msg sending 1 0 0 0 "" app).pool.db
handle_biz_msg-IsAuthored_example = handle_biz_msg-IsAuthored sending 1 0 0 0 "" app
