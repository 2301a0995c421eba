-- ===== src/Router/Http.antt =====
-- src/router.rs: the handlers of the HTTP routes. A handler verifies the token first, and answers
-- with a status and a body; `secs` is the time of the server's clock in seconds.
pub mod Auth
pub mod Bounds
pub mod Refusals
pub mod Yields
pub mod Privacy
use myx_im.Base.{
  ℕ, String, Bool, ◌⊎◌, inl, inr, Option, none, some, List, ◌==◌, if◌then◌else◌, is_empty, same,
  unwrap_or,
}
use myx_im.Base.Int.{ℤ, pos, min_ℤ}
use myx_im.Model.{
  Uuid, Time, ChatHistoryItem, ConversationItem, UserSearchItem, FriendInfo, GroupInfo, GroupMember,
  GroupHistoryItem,
}
use myx_im.Db.Statement.{Dao, DbError}
use myx_im.State.{Frame, remove_online_user}
use myx_im.Jwt.{Config, Crypto, Claims, verify_token}
use myx_im.Service.{Response, answer, refuse, error_text, contains}
use myx_im.Service
use myx_im.Dao.Chat.{get_chat_history, get_conversations}
use myx_im.Dao.Users.{search_users}
use myx_im.Dao.Friends.{add_friend, list_friends}
use myx_im.Dao.Groups.{
  create_group, join_group, leave_group, list_my_groups, search_groups, list_group_members,
}
use myx_im.Dao.GroupMessages.{get_group_history}
use myx_im.Router.App.{AppState, Json, frame, push, query}
use myx_im.Router.Delta.{mark_and_push}
use myx_im.Router.Trim.{trim}

abbrev pub Handler : Type 0 → Type 0
Handler T = AppState → Response T × AppState

-- `query.limit.unwrap_or(d).min(most)`
abbrev pub clamp_limit : Option ℤ → ℕ → ℕ → ℤ
clamp_limit limit d most = min_ℤ (unwrap_or limit (pos d)) most

abbrev pub with_claims : {T : Type 0} → Option Claims → (Claims → Handler T) → Handler T
with_claims none h s = (refuse 401 "invalid token", s)
with_claims (some c) h s = h c s

-- A handler that answers with what one operation of src/dao.rs returns, or with 500.
abbrev pub respond : {T : Type 0} → Dao T → String → String → Handler T
respond m msg failure = query m (λ items s. (answer items msg, s)) (λ e s. (refuse 500 failure, s))

abbrev pub account_deleted : Frame
account_deleted = frame "kicked" 0 "{\"msg\":\"account deleted\"}"

module _ (crypto : Crypto) (secs : ℕ) (config : Config) where
  abbrev pub authorized : {T : Type 0} → String → (Claims → Handler T) → Handler T
  authorized token = with_claims (verify_token crypto secs token config)

  unfoldable pub user_register_handler : Time → Uuid → String → String → Handler String
  user_register_handler now uid username password s =
      let (r, p) = Service.register_user crypto secs config now uid username password s.pool in
      (r, record s { pool = p })

  unfoldable pub user_login_handler : String → String → Handler String
  user_login_handler username password s =
      let (r, p) = Service.login_user crypto secs config username password s.pool in
      (r, record s { pool = p })

  abbrev pub finish_logout : Response String ⊎ Uuid → AppState → Response String × AppState
  finish_logout (inl refusal) s = (refusal, s)
  finish_logout (inr uid) s =
      (answer "" "logout success", record s { online = remove_online_user uid s.online })

  unfoldable pub user_logout_handler : String → String → Handler String
  user_logout_handler username password s =
      let (r, p) = Service.logout_user crypto secs config username password s.pool in
      finish_logout r (record s { pool = p })

  abbrev pub finish_delete : Response String ⊎ Uuid → AppState → Response String × AppState
  finish_delete (inl refusal) s = (refusal, s)
  finish_delete (inr uid) s = (answer "ok" "account deleted", push uid account_deleted s)

  unfoldable pub user_delete_handler : String → Handler String
  user_delete_handler token s =
      let (r, p) = Service.delete_user crypto secs config token s.pool in
      finish_delete r (record s { pool = p })

  unfoldable pub friend_add_handler : Time → String → Uuid → Handler String
  friend_add_handler now token peer_uid = authorized token λ c.
      if c.user_id == peer_uid
      then (λ s. (refuse 400 "cannot add self as friend", s))
      else query (add_friend now c.user_id peer_uid) (λ _ s. (answer "ok" "friend added", s))
          (λ e s. (refuse 500 "add friend failed", s))

  unfoldable pub friend_list_handler : (String → String → Bool) → String → Handler (List FriendInfo)
  friend_list_handler collates token =
      authorized token λ c. respond (list_friends collates c.user_id) "ok" "list friends failed"

  unfoldable pub conversations_handler : String → Handler (List ConversationItem)
  conversations_handler token =
      authorized token λ c. respond (get_conversations c.user_id) "ok" "query conversations failed"

  unfoldable pub user_search_handler :
      (String → String → Bool) → String → String → Option ℤ → Handler (List UserSearchItem)
  user_search_handler ilike token q limit = authorized token λ c.
      respond (search_users ilike q c.user_id (clamp_limit limit 20 50)) "ok" "search users failed"

  abbrev pub create_refused : DbError → AppState → Response GroupInfo × AppState
  create_refused e s = (
    if contains (error_text e) "already exists"
        then refuse 409 "you already have a group with this name"
        else refuse 500 "create group failed",
    s,
  )

  unfoldable pub group_create_handler : Time → Uuid → String → String → Handler GroupInfo
  group_create_handler now gid token name = authorized token λ c.
      if same (trim name) ""
      then (λ s. (refuse 400 "group name required", s))
      else query (create_group now gid (trim name) c.user_id)
          (λ group s. (answer group "group created", s)) create_refused

  unfoldable pub group_join_handler : Time → String → Uuid → Handler String
  group_join_handler now token gid = authorized token λ c.
      query (join_group now gid c.user_id)
        (λ joined s. (
          if joined then answer "" "joined group" else refuse 409 "already a member of this group",
          s,
        ))
        (λ e s. (refuse 500 "join group failed", s))

  unfoldable pub group_leave_handler : String → Uuid → Handler String
  group_leave_handler token gid = authorized token λ c.
      query (leave_group gid c.user_id) (λ _ s. (answer "" "left group", s))
        (λ e s. (refuse 500 "leave group failed", s))

  unfoldable pub group_list_handler : String → Handler (List GroupInfo)
  group_list_handler token =
      authorized token λ c. respond (list_my_groups c.user_id) "ok" "list groups failed"

  unfoldable pub group_search_handler :
      (String → String → Bool) → String → String → Option ℤ → Handler (List GroupInfo)
  group_search_handler ilike token q limit =
      authorized token
        λ c. respond (search_groups ilike q (clamp_limit limit 20 50)) "ok" "search groups failed"

  unfoldable pub group_members_handler : String → Uuid → Handler (List GroupMember)
  group_members_handler token gid =
      authorized token λ c. respond (list_group_members gid) "ok" "list members failed"

  module _ {V : Type 0} (json : Json V) where
    abbrev pub send_seen : Uuid → Option String → AppState → AppState
    send_seen peer none s = s
    send_seen peer (some body) s = push peer (frame "delivery_update" 0 body) s

    abbrev pub tell_peer : Uuid → Uuid → List ℕ → AppState → AppState
    tell_peer uid peer ids s =
        if is_empty ids
        then s
        else send_seen peer (json.delivery_update (record { msg_ids = ids; to_uid = uid })) s

    unfoldable pub message_history_handler :
        String → Uuid → Option ℤ → Option ℤ → Handler (List ChatHistoryItem)
    message_history_handler token peer before limit = authorized token λ c.
        query (get_chat_history c.user_id peer before (clamp_limit limit 50 100))
          (λ found s. (answer found.0 "ok", tell_peer c.user_id peer found.1 s))
          (λ e s. (refuse 500 "query history failed", s))

    unfoldable pub group_history_handler :
        String → Uuid → Option ℤ → Option ℤ → Handler (List GroupHistoryItem)
    group_history_handler token gid before limit = authorized token λ c.
        query (get_group_history gid before (clamp_limit limit 50 100))
          (λ items s. (answer items "ok", mark_and_push json gid c.user_id s))
          (λ e s. (refuse 500 "query history failed", s))
