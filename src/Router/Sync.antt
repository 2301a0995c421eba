-- ===== src/Router/Sync.antt =====
-- src/router.rs, the task of handle_im_websocket that sends a client what it has not seen yet when
-- it connects. `tx` is the channel of the new connection.
pub mod Sends
pub mod Order
pub mod Later
use myx_im.Base.{
  ℕ, String, Option, none, some, List, [], ◌∷◌, map, filter, any, ◌==◌, ◌%◌, is_empty,
  if◌then◌else◌,
}
use myx_im.Base.Int.{pos}
use myx_im.Base.Outcome.{ok}
use myx_im.Model.{Uuid, User, ChatHistoryItem, GroupHistoryItem}
use myx_im.Model.Wire.{PrivatePushMsg, GroupPushMsg}
use myx_im.Db.Statement.{Dao, statement}
use myx_im.Dao.Select.{user_row}
use myx_im.Dao.Chat.{get_unseen_messages}
use myx_im.Dao.GroupMessages.{get_unseen_group_messages}
use myx_im.Router.App.{AppState, Json, frame, reply, query}

-- `SELECT id, username FROM im_users WHERE id = ANY($1)`
abbrev pub select_names : List Uuid → Dao (List User)
select_names uids = statement (λ db. ok (filter (λ u. any (λ uid. u.id == uid) uids) db.users) db)

abbrev pub name_in : Option User → String
name_in none = ""
name_in (some u) = u.username

-- `names.get(&msg.from_uid).cloned().unwrap_or_default()`
abbrev pub name_of : Uuid → List User → String
name_of uid names = name_in (user_row uid names)

abbrev pub private_push_of : List User → ChatHistoryItem → PrivatePushMsg
private_push_of names m = record {
  from_uid = m.from_uid;
  from_name = name_of m.from_uid names;
  to_uid = m.to_uid;
  content = m.content;
  msg_type = m.msg_type % 256;
  send_time = m.send_time;
}

abbrev pub group_push_of : GroupHistoryItem → GroupPushMsg
group_push_of m = record {
  group_id = m.group_id;
  from_uid = m.from_uid;
  from_name = m.from_name;
  content = m.content;
  msg_type = m.msg_type % 256;
  send_time = m.send_time;
}

module _ {V : Type 0} (json : Json V) (uid : Uuid) (tx : ℕ) where
  abbrev pub send_json : String → Option String → AppState → AppState
  send_json cmd none s = s
  send_json cmd (some body) s = reply tx (frame cmd 0 body) s

  abbrev pub send_private : List User → List ChatHistoryItem → AppState → AppState
  send_private names [] s = s
  send_private names (m ∷ ms) s =
      send_private names ms
        (send_json "private_push" (json.private_push (private_push_of names m)) s)

  abbrev pub send_group : List GroupHistoryItem → AppState → AppState
  send_group [] s = s
  send_group (m ∷ ms) s =
      send_group ms (send_json "group_push" (json.group_push (group_push_of m)) s)

  abbrev pub with_names : List ChatHistoryItem → AppState → AppState
  with_names msgs =
      if is_empty msgs
      then send_private [] msgs
      else query (select_names (map (λ m. m.from_uid) msgs)) (λ names. send_private names msgs)
          (λ e. send_private [] msgs)

  abbrev pub sync_private : AppState → AppState
  sync_private = query (get_unseen_messages uid (pos 200)) with_names (λ e s. s)

  abbrev pub sync_groups : AppState → AppState
  sync_groups = query (get_unseen_group_messages uid (pos 200)) send_group (λ e s. s)

  unfoldable pub sync : AppState → AppState
  sync s = sync_groups (sync_private s)
