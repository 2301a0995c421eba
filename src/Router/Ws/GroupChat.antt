-- ===== src/Router/Ws/GroupChat.antt =====
-- src/router.rs, "group_chat": only members send, and every other member who is online is told once.
use myx_im.Base.{ℕ, ◌≡◌, ◌≢◌, ◌∙◌, ap, String, true, Option, none, some, List, any, ◌==◌, arith}
use myx_im.Base.Outcome.{ok}
use myx_im.Base.Rows.{is_some-find?}
use myx_im.Db.{Db}
use myx_im.Db.Statement.{healthy}
use myx_im.Model.Wire.{GroupChatReq}
use myx_im.State.{Online, OnlineUser, Frame, enqueue, send}
use myx_im.State.Delivery.{IsReachable}
use myx_im.Dao.Groups.{
  is_membership, is_member, member_uids, is_group_member, get_group_member_uids,
}
use myx_im.Dao.GroupMessages.{persist_group_message}
use myx_im.Router.App.{AppState, Json, frame, reply, query}
use myx_im.Router.Ws.{group_chat, group_push_of, push_members, reply_json}
use myx_im.Router.Ws.Groups.{Separate, Distinct, push_members-once}

-- is_group_member answers by the membership rows.
is_group_member_lem :
    (gid uid : ℕ) (db : Db)
    → is_group_member gid uid (healthy db) ≡ ok (is_member gid uid db) (healthy db)
unfolding is_group_member
is_group_member_lem gid uid db = rw (is_some-find? (is_membership gid uid) db.members)

send-Separate : (tx : ℕ) (msg : Frame) (s : Online) → Separate s → Separate (send tx msg s).1
unfolding send
send-Separate tx msg s h u v o e p q ne = ground (arith, h u v o e, ne)

send-IsReachable :
    (tx u : ℕ) (o : OnlineUser) (msg : Frame) (s : Online)
    → IsReachable u o s
    → IsReachable u o (send tx msg s).1
unfolding send
send-IsReachable tx u o msg s r = ground arith

send-other :
    (tx i : ℕ) (msg : Frame) (s : Online) → i ≢ tx → (send tx msg s).1.channels i ≡ s.channels i
unfolding send
send-other tx i msg s ne = ground arith

-- The acknowledgement on another channel changes nothing for the member.
push_after_ack :
    (uid u tx seq : ℕ) (o : OnlineUser) (msg : Frame) (ms : List ℕ) (s : AppState)
    → Distinct ms
    → Separate s.online
    → IsReachable u o s.online
    → u ≢ uid
    → o.tx ≢ tx
    → any (λ m. m == u) ms ≡ true
    → (ack : Option String)
    → (push_members uid msg ms (reply_json tx "group_chat_ack" seq ack s)).online.channels o.tx
      ≡ enqueue msg (s.online.channels o.tx)
push_after_ack uid u tx seq o msg ms s d h r ne el a none =
    push_members-once uid u o msg ms s d h r ne a
push_after_ack uid u tx seq o msg ms s d h r ne el a (some body) =
    let ack = frame "group_chat_ack" seq body in
    push_members-once uid u o msg ms (reply tx ack s) d (send-Separate tx ack s.online h)
      (send-IsReachable tx u o ack s.online r) ne a
    ∙ ap (enqueue msg) (send-other tx o.tx ack s.online el)

module _ {V : Type 0} (json : Json V) (uid tx now send_time seq : ℕ) (payload : V)
    (req : GroupChatReq) (db : Db) (online : Online)
    (request : json.group_chat_req payload ≡ some req) where
  module _ (id : ℕ) (db' : Db) (body : String) (u : ℕ) (o : OnlineUser)
      (member : is_member req.group_id uid db ≡ true)
      (stored : persist_group_message now req.group_id uid req.content req.msg_type
          req.client_msg_id
          (healthy db)
        ≡ ok id (healthy db'))
      (written : json.group_push (group_push_of uid send_time req) ≡ some body)
      (apart : Separate online) (distinct : Distinct (member_uids req.group_id db'))
      (reachable : IsReachable u o online) (other : u ≢ uid) (elsewhere : o.tx ≢ tx)
      (listed : any (λ m. m == u) (member_uids req.group_id db') ≡ true) where
    -- When a member's message has been stored, each other member whose connection can be reached has
    -- the push at the end of the connection's queue, once, and nothing else new in the queue. The
    -- members' rows are distinct, and so are the connections of different users.
    pub group_chat-once :
        (group_chat json uid tx now send_time seq payload
            (record { pool = healthy db; online = online })).online.channels
          o.tx
        ≡ enqueue (frame "group_push" 0 body) (online.channels o.tx)
    unfolding group_chat get_group_member_uids
    group_chat-once =
        rw (request, is_group_member_lem req.group_id uid db, member, stored, group_chat)
          (rw written (
            told (
              json.group_chat_ack
                (record { msg_id = id; send_time = send_time; online_count = 0 }))))
      where
        told :
            (ack : Option String)
            → (query
                  (get_group_member_uids req.group_id)
                  (λ members. push_members uid (frame "group_push" 0 body) members)
                  (λ e s. s)
                  (reply_json tx "group_chat_ack" seq ack
                    (record { pool = healthy db'; online = online }))).online.channels
                o.tx
              ≡ enqueue (frame "group_push" 0 body) (online.channels o.tx)
        told none =
            push_after_ack uid u tx seq o (frame "group_push" 0 body) (member_uids req.group_id db')
              (record { pool = healthy db'; online = online }) distinct apart reachable other
              elsewhere listed none
        told (some text) =
            push_after_ack uid u tx seq o (frame "group_push" 0 body) (member_uids req.group_id db')
              (record { pool = healthy db'; online = online }) distinct apart reachable other
              elsewhere listed (some text)
