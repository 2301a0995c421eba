-- ===== src/Router/Server/Commands.antt =====
-- The commands of a WebSocket, and the messages for a new connection, keep what the operations of
-- src/dao.rs keep.
use myx_im.Base.{
  ℕ, ◌≡◌, refl, ◌∙◌, String, Bool, true, false, Option, none, some, List, [], ◌∷◌, arith, same, map,
  if◌then◌else◌,
}
use myx_im.Base.Int.{pos}
use myx_im.Model.{ChatHistoryItem}
use myx_im.Model.Wire.{WsMessage, MarkSeenReq, PrivateChatReq, GroupChatReq}
use myx_im.Db.{Db}
use myx_im.Dao.Chat.{persist_chat_message, mark_seen_from_peer, get_unseen_messages}
use myx_im.Dao.Groups.{is_group_member, get_group_member_uids}
use myx_im.Dao.GroupMessages.{persist_group_message, get_unseen_group_messages}
use myx_im.Dao.GroupRead.{mark_group_read_and_get_delta}
use myx_im.Dao.Keeps.{
  CommandKeeps, is_group_member-Keeps, get_group_member_uids-Keeps, get_unseen_messages-Keeps,
  get_unseen_group_messages-Keeps, ok-Keeps,
}
use myx_im.Base.Outcome.{Outcome, ok, err, state_of}
use myx_im.Db.Keeps.{Keeps}
use myx_im.Db.Statement.{Pool, DbError}
use myx_im.Router.App.{AppState, Json, Parsed, parsed, malformed, reply, continue}
use myx_im.Router.Delta.{mark_and_push, by_sender}
use myx_im.Router.Sync.{with_names, sync_private, sync, select_names}
use myx_im.Router.Ws.{
  typing, mark_seen, mark_group_read, private_chat, group_chat, handle_biz_msg, push_group_json,
  dispatch, store_and_push, group_chat_with, chat_with, see_peer, read_group, read_group_text,
  forward_typing, group_ack, tell_seen, acknowledge, push_json, not_a_member,
}
use myx_im.Router.Server.Keeps.{
  KeepsState, query-KeepsState, quiet, push_members-pool, push_updates-pool, send_private-pool,
  send_group-pool,
}

-- What holds of both branches holds of the one that is taken.
branch : (Q : AppState → Type 0) {t u : AppState} (b : Bool) → Q t → Q u → Q (if b then t else u)
branch Q true h k = h
branch Q false h k = k

push_json-pool :
    (to : ℕ) (cmd : String) (seq : ℕ) (body : Option String) (s : AppState)
    → (push_json to cmd seq body s).1.pool ≡ s.pool
push_json-pool to cmd seq none s = refl
push_json-pool to cmd seq (some body) s = refl

module _ {V : Type 0} (json : Json V) (uid tx : ℕ) where
  tell_seen-pool :
      (peer : ℕ) (ids : List ℕ) (s : AppState) → (tell_seen json uid tx peer ids s).pool ≡ s.pool
  tell_seen-pool peer [] s = refl
  tell_seen-pool peer (i ∷ ids) s = push_json-pool peer _ _ _ s

  acknowledge-pool :
      (seq send_time msg_id : ℕ) (pushed : Bool × AppState)
      → (acknowledge json uid tx seq send_time msg_id pushed).pool ≡ pushed.1.pool
  acknowledge-pool seq send_time msg_id (d, s) = ground arith

  push_group_json-pool :
      (body : Option String) (members : List ℕ) (s : AppState)
      → (push_group_json json uid tx body members s).pool ≡ s.pool
  push_group_json-pool none members s = refl
  push_group_json-pool (some body) members s = push_members-pool uid _ members s

  group_ack-pool :
      (seq send_time msg_id : ℕ) (s : AppState)
      → (group_ack json uid tx seq send_time msg_id s).pool ≡ s.pool
  group_ack-pool seq send_time msg_id s = ground arith

module _ (P : Db → Type 0) {V : Type 0} (json : Json V) where
  pub mark_and_push-KeepsState :
      (gid uid : ℕ)
      → Keeps P (mark_group_read_and_get_delta gid uid)
      → KeepsState P (mark_and_push json gid uid)
  unfolding mark_and_push
  mark_and_push-KeepsState gid uid k =
      query-KeepsState P (mark_group_read_and_get_delta gid uid) k
        (λ delta. quiet P (push_updates-pool json gid uid (by_sender delta)))
        (λ e. quiet P (λ s. refl))

  module _ (uid tx : ℕ) (Member : ℕ → Type 0) (k : CommandKeeps P uid Member) where
    typing_keeps :
        (seq : ℕ) (req : Parsed PrivateChatReq) → KeepsState P (forward_typing json uid tx seq req)
    typing_keeps seq (malformed e) = quiet P (λ s. refl)
    typing_keeps seq (parsed req) = quiet P (λ s. refl)

    see_peer_keeps : (req : Option MarkSeenReq) → KeepsState P (see_peer json uid tx req)
    see_peer_keeps none = quiet P (λ s. refl)
    see_peer_keeps (some req) =
        query-KeepsState P (mark_seen_from_peer req.to_uid uid) (k.seen-Keeps req.to_uid)
          (λ ids. quiet P (tell_seen-pool json uid tx req.to_uid ids)) (λ e. quiet P (λ s. refl))

    read_group_keeps : (gid : Option ℕ) → KeepsState P (read_group json uid tx gid)
    read_group_keeps none = quiet P (λ s. refl)
    read_group_keeps (some gid) = mark_and_push-KeepsState gid uid (k.read-Keeps gid)

    read_group_text_keeps : (text : Option String) → KeepsState P (read_group_text json uid tx text)
    read_group_text_keeps none = quiet P (λ s. refl)
    read_group_text_keeps (some text) = read_group_keeps (json.uuid text)

    chat_with_keeps :
        (now send_time seq : ℕ) (req : Parsed PrivateChatReq)
        → KeepsState P (chat_with json uid tx now send_time seq req)
    chat_with_keeps now send_time seq (malformed e) = quiet P (λ s. refl)
    chat_with_keeps now send_time seq (parsed req) =
        query-KeepsState P
          (persist_chat_message now uid req.to_uid req.content req.msg_type req.client_msg_id)
          (k.private-Keeps now req.to_uid req.content req.msg_type req.client_msg_id)
          (λ msg_id. quiet P (λ s.
            acknowledge-pool json uid tx seq send_time msg_id _
            ∙ push_json-pool req.to_uid _ _ _ s))
          (λ e. quiet P (λ s. refl))

    store_and_push_keeps :
        (now send_time seq : ℕ) (req : GroupChatReq)
        → Member req.group_id
        → KeepsState P (store_and_push json uid tx now send_time seq req)
    store_and_push_keeps now send_time seq req member =
        query-KeepsState P
          (persist_group_message now req.group_id uid req.content req.msg_type req.client_msg_id)
          (k.group-Keeps now req.group_id req.content req.msg_type req.client_msg_id member)
          (λ msg_id. record {
            keeps = λ s h.
                (query-KeepsState P (get_group_member_uids req.group_id)
                    (get_group_member_uids-Keeps P req.group_id)
                    (λ members. quiet P (push_group_json-pool json uid tx _ members))
                    (λ e. quiet P (λ s. refl))).keeps
                  (group_ack json uid tx seq send_time msg_id s)
                  ((quiet P {f = group_ack json uid tx seq send_time msg_id}
                      (group_ack-pool json uid tx seq send_time msg_id)).keeps
                    s h);
          })
          (λ e. quiet P (λ s. refl))

    group_chat_with_keeps :
        (now send_time seq : ℕ) (req : Option GroupChatReq)
        → KeepsState P (group_chat_with json uid tx now send_time seq req)
    group_chat_with_keeps now send_time seq none = quiet P (λ s. refl)
    group_chat_with_keeps now send_time seq (some req) = record {
      keeps = λ s h.
          asked s h (is_group_member req.group_id uid s.pool) refl
            (is_group_member-Keeps P req.group_id uid s.pool h);
    }
      where
        asked :
            (s : AppState)
            → P s.pool.db
            → (r : Outcome Pool DbError Bool) → is_group_member req.group_id uid s.pool ≡ r
            → P (state_of r).db
            → P
                (continue s r
                  (λ is_member t.
                    if is_member
                    then store_and_push json uid tx now send_time seq req t
                    else reply tx (not_a_member seq) t)
                  (λ e t. t)).pool.db
        asked s h (ok true q) e v =
            (store_and_push_keeps now send_time seq req (k.found req.group_id s.pool q h e)).keeps
              (record s { pool = q }) v
        asked s h (ok false q) e v = v
        asked s h (err x q) e v = v

    -- Every command, whatever its name.
    dispatch_keeps :
        (now send_time : ℕ) (m : Option (WsMessage V))
        → KeepsState P (dispatch json uid tx now send_time m)
    unfolding typing mark_seen mark_group_read private_chat group_chat
    dispatch_keeps now send_time none = quiet P (λ s. refl)
    dispatch_keeps now send_time (some m) = record {
      keeps = λ s h.
          branch (λ t. P t.pool.db) (same m.cmd "heartbeat") h
            (branch (λ t. P t.pool.db) (same m.cmd "typing")
              ((typing_keeps m.seq (json.private_chat_req m.payload)).keeps s h)
              (branch (λ t. P t.pool.db) (same m.cmd "mark_seen")
                ((see_peer_keeps (json.mark_seen_req m.payload)).keeps s h)
                (branch (λ t. P t.pool.db) (same m.cmd "mark_group_read")
                  ((read_group_text_keeps (json.group_id m.payload)).keeps s h)
                  (branch (λ t. P t.pool.db) (same m.cmd "private_chat")
                    ((chat_with_keeps now send_time m.seq (json.private_chat_req m.payload)).keeps s
                      h)
                    (branch (λ t. P t.pool.db) (same m.cmd "group_chat")
                      ((group_chat_with_keeps now send_time m.seq
                          (json.group_chat_req m.payload)).keeps
                        s h)
                      h)))));
    }

    pub handle_biz_msg-KeepsState :
        (now send_time : ℕ) (text : String)
        → KeepsState P (handle_biz_msg json uid tx now send_time text)
    unfolding handle_biz_msg
    handle_biz_msg-KeepsState now send_time text = dispatch_keeps now send_time (json.message text)

  module _ (uid tx : ℕ) where
    with_names_keeps : (ms : List ChatHistoryItem) → KeepsState P (with_names json uid tx ms)
    with_names_keeps [] = quiet P (λ s. refl)
    with_names_keeps (m ∷ ms) =
        query-KeepsState P (select_names (map (λ n. n.from_uid) (m ∷ ms))) (ok-Keeps P _)
          (λ names. quiet P (send_private-pool json uid tx names (m ∷ ms)))
          (λ e. quiet P (send_private-pool json uid tx [] (m ∷ ms)))

    pub sync-KeepsState : KeepsState P (sync json uid tx)
    unfolding sync
    sync-KeepsState = record {
      keeps = λ s h.
          (query-KeepsState P (get_unseen_group_messages uid (pos 200))
              (get_unseen_group_messages-Keeps P uid (pos 200))
              (λ items. quiet P (send_group-pool json uid tx items))
              (λ e. quiet P (λ t. refl))).keeps
            (sync_private json uid tx s)
            ((query-KeepsState P (get_unseen_messages uid (pos 200))
                (get_unseen_messages-Keeps P uid (pos 200)) with_names_keeps
                (λ e. quiet P (λ t. refl))).keeps
              s h);
    }
