-- ===== src/Router/Ws.antt =====
-- src/router.rs, handle_biz_msg: the commands that a client sends on its WebSocket. `uid` is the
-- user of the connection and `tx` its channel.
pub mod Private
pub mod Deleted
pub mod Groups
pub mod GroupChat
pub mod Acks
pub mod Isolated
use Prim.Native.String
use myx_im.Base.{
  ℕ, String, Bool, false, not, Option, none, some, List, [], ◌∷◌, ◌==◌, if◌then◌else◌, is_empty,
  same, unwrap_or,
}
use myx_im.Model.{Uuid, Time}
use myx_im.Model.Wire.{
  WsMessage, MarkSeenReq, PrivateChatReq, PrivatePushMsg, GroupChatReq, GroupPushMsg,
}
use myx_im.State.{Frame}
use myx_im.Dao.Chat.{persist_chat_message, mark_seen_from_peer}
use myx_im.Dao.Groups.{is_group_member, get_group_member_uids}
use myx_im.Dao.GroupMessages.{persist_group_message}
use myx_im.Router.App.{
  AppState, Json, Parsed, parsed, malformed, frame, push, delivers, reply, query,
}
use myx_im.Router.Delta.{mark_and_push}

abbrev pub invalid_format : Frame
invalid_format = frame "error" 0 "{\"code\":400,\"msg\":\"invalid message format\"}"

abbrev pub not_a_member : ℕ → Frame
not_a_member seq = frame "error" seq "{\"code\":403,\"msg\":\"not a member of this group\"}"

abbrev pub save_failed : ℕ → Frame
save_failed seq = frame "error" seq "{\"code\":500,\"msg\":\"save message failed\"}"

abbrev pub send_group_failed : ℕ → Frame
send_group_failed seq = frame "error" seq "{\"code\":500,\"msg\":\"send group message failed\"}"

abbrev pub invalid_private_chat : ℕ → String → Frame
invalid_private_chat seq e =
    frame "error" seq
      (String.◌++◌ "{\"code\":400,\"msg\":\"invalid private_chat data: " (String.◌++◌ e "\"}"))

-- `if let Ok(json) = … { tx.send(…) }`
abbrev pub reply_json : ℕ → String → ℕ → Option String → AppState → AppState
reply_json tx cmd seq none s = s
reply_json tx cmd seq (some body) s = reply tx (frame cmd seq body) s

-- The same to a user, with whether the message was delivered.
abbrev pub push_json : Uuid → String → ℕ → Option String → AppState → Bool × AppState
push_json to cmd seq none s = (false, s)
push_json to cmd seq (some body) s =
    (delivers to (frame cmd seq body) s, push to (frame cmd seq body) s)

abbrev pub push_of : Uuid → ℕ → PrivateChatReq → PrivatePushMsg
push_of uid send_time req = record {
  from_uid = uid;
  from_name = unwrap_or req.from_name "";
  to_uid = req.to_uid;
  content = req.content;
  msg_type = req.msg_type;
  send_time = send_time;
}

abbrev pub group_push_of : Uuid → ℕ → GroupChatReq → GroupPushMsg
group_push_of uid send_time req = record {
  group_id = req.group_id;
  from_uid = uid;
  from_name = unwrap_or req.from_name "";
  content = req.content;
  msg_type = req.msg_type;
  send_time = send_time;
}

-- The loop over the members of the group: everybody but the sender `uid` gets the push.
abbrev pub push_members : Uuid → Frame → List Uuid → AppState → AppState
push_members uid msg [] s = s
push_members uid msg (member ∷ rest) s =
    push_members uid msg rest (if member == uid then s else push member msg s)

module _ {V : Type 0} (json : Json V) (uid : Uuid) (tx : ℕ) where
  abbrev pub forward_typing : ℕ → Parsed PrivateChatReq → AppState → AppState
  forward_typing seq (malformed e) s = s
  forward_typing seq (parsed req) s =
      push req.to_uid
        (frame "typing" seq
          (String.◌++◌ "{\"from_uid\":\"" (String.◌++◌ (json.uuid_text uid) "\"}")))
        s

  unfoldable pub typing : ℕ → V → AppState → AppState
  typing seq payload = forward_typing seq (json.private_chat_req payload)

  abbrev pub tell_seen : Uuid → List ℕ → AppState → AppState
  tell_seen peer ids s =
      if is_empty ids
      then s
      else (push_json peer "delivery_update" 0
          (json.delivery_update (record { msg_ids = ids; to_uid = uid })) s).1

  abbrev pub see_peer : Option MarkSeenReq → AppState → AppState
  see_peer none = λ s. s
  see_peer (some req) =
      query (mark_seen_from_peer req.to_uid uid) (λ ids. tell_seen req.to_uid ids) (λ e s. s)

  unfoldable pub mark_seen : V → AppState → AppState
  mark_seen payload = see_peer (json.mark_seen_req payload)

  abbrev pub read_group : Option Uuid → AppState → AppState
  read_group none = λ s. s
  read_group (some group_id) = mark_and_push json group_id uid

  abbrev pub read_group_text : Option String → AppState → AppState
  read_group_text none = λ s. s
  read_group_text (some text) = read_group (json.uuid text)

  unfoldable pub mark_group_read : V → AppState → AppState
  mark_group_read payload = read_group_text (json.group_id payload)

  -- The push to the recipient comes first, and the acknowledgement says whether it was delivered.
  abbrev pub acknowledge : ℕ → ℕ → ℕ → Bool × AppState → AppState
  acknowledge seq send_time msg_id (delivered, s) =
      reply_json tx "private_chat_ack" seq
        (json.private_chat_ack
          (record { msg_id = msg_id; send_time = send_time; delivered = delivered }))
        s

  abbrev pub chat_with : Time → ℕ → ℕ → Parsed PrivateChatReq → AppState → AppState
  chat_with now send_time seq (malformed e) = reply tx (invalid_private_chat seq e)
  chat_with now send_time seq (parsed req) =
      query (persist_chat_message now uid req.to_uid req.content req.msg_type req.client_msg_id)
        (λ msg_id s. acknowledge seq send_time msg_id (
          push_json req.to_uid "private_push" seq (json.private_push (push_of uid send_time req))
            s))
        (λ e s. reply tx (save_failed seq) s)

  -- `send_time` is the time of the server's clock in milliseconds, `now` that of the database.
  unfoldable pub private_chat : Time → ℕ → ℕ → V → AppState → AppState
  private_chat now send_time seq payload =
      chat_with now send_time seq (json.private_chat_req payload)

  abbrev pub push_group_json : Option String → List Uuid → AppState → AppState
  push_group_json none members = λ s. s
  push_group_json (some body) members = push_members uid (frame "group_push" 0 body) members

  abbrev pub group_ack : ℕ → ℕ → ℕ → AppState → AppState
  group_ack seq send_time msg_id =
      reply_json tx "group_chat_ack" seq
        (json.group_chat_ack (record { msg_id = msg_id; send_time = send_time; online_count = 0 }))

  abbrev pub store_and_push : Time → ℕ → ℕ → GroupChatReq → AppState → AppState
  store_and_push now send_time seq req =
      query (persist_group_message now req.group_id uid req.content req.msg_type req.client_msg_id)
        (λ msg_id s.
          query (get_group_member_uids req.group_id)
            (λ members. push_group_json (json.group_push (group_push_of uid send_time req)) members)
            (λ e s'. s') (group_ack seq send_time msg_id s))
        (λ e s. reply tx (send_group_failed seq) s)

  abbrev pub group_chat_with : Time → ℕ → ℕ → Option GroupChatReq → AppState → AppState
  group_chat_with now send_time seq none = λ s. s
  group_chat_with now send_time seq (some req) =
      query (is_group_member req.group_id uid)
        (λ is_member s.
          if is_member
          then store_and_push now send_time seq req s
          else reply tx (not_a_member seq) s)
        (λ e s. s)

  unfoldable pub group_chat : Time → ℕ → ℕ → V → AppState → AppState
  group_chat now send_time seq payload =
      group_chat_with now send_time seq (json.group_chat_req payload)

  -- The commands, in the order of the source; others are ignored, as is a heartbeat.
  abbrev pub dispatch : Time → ℕ → Option (WsMessage V) → AppState → AppState
  dispatch now send_time none s = reply tx invalid_format s
  dispatch now send_time (some m) s =
      if same m.cmd "heartbeat"
      then s
      else if same m.cmd "typing"
      then typing m.seq m.payload s
      else if same m.cmd "mark_seen"
      then mark_seen m.payload s
      else if same m.cmd "mark_group_read"
      then mark_group_read m.payload s
      else if same m.cmd "private_chat"
      then private_chat now send_time m.seq m.payload s
      else if same m.cmd "group_chat"
      then group_chat now send_time m.seq m.payload s
      else s

  unfoldable pub handle_biz_msg : Time → ℕ → String → AppState → AppState
  handle_biz_msg now send_time text = dispatch now send_time (json.message text)
