-- ===== src/Router/Serve.antt =====
-- src/router.rs, app_router and websocket_handler: from a request to its handler.
pub mod Bounds
pub mod Tokens
pub mod Refusals
pub mod Privacy
use myx_im.Base.{ℕ, String, Bool, ◌⊎◌, inl, inr, Option, none, some, List}
use myx_im.Model.{
  Uuid, Time, FriendInfo, ConversationItem, UserSearchItem, ChatHistoryItem, GroupInfo, GroupMember,
  GroupHistoryItem,
}
use myx_im.Model.Requests.{
  RegisterRequest, LoginRequest, AddFriendReq, CreateGroupReq, GroupActionReq, GroupQuery,
  GroupHistoryQuery, HistoryQuery, TokenQuery, DeleteRequest, SearchQuery, WsQuery,
}
use myx_im.Service.{Response}
use myx_im.Jwt.{Config, Crypto, Claims, verify_token}
use myx_im.Router.App.{AppState, Json}
use myx_im.Router.Http.{
  Handler, user_register_handler, user_login_handler, user_logout_handler, user_delete_handler,
  friend_add_handler, friend_list_handler, conversations_handler, user_search_handler,
  group_create_handler, group_join_handler, group_leave_handler, group_list_handler,
  group_search_handler, group_members_handler, message_history_handler, group_history_handler,
}
use myx_im.Router.Routes.{
  Request, Endpoint, index, debug, websocket, user_register, user_login, user_logout, user_delete,
  message_history, conversation_list, user_search, group_create, group_join, group_leave,
  group_list, group_search, group_members, group_history, friend_add, friend_list, routes,
  find_route,
}

-- `Json<T>`, `Query<T>` and `WebSocketUpgrade` of axum: the value, or the status of the refusal.
pub record Extract (R : Type 0) : Type 0 where
  pub register : R → ℕ ⊎ RegisterRequest
  pub login : R → ℕ ⊎ LoginRequest
  pub delete : R → ℕ ⊎ DeleteRequest
  pub add_friend : R → ℕ ⊎ AddFriendReq
  pub create_group : R → ℕ ⊎ CreateGroupReq
  pub group_action : R → ℕ ⊎ GroupActionReq
  pub token_query : R → ℕ ⊎ TokenQuery
  pub history_query : R → ℕ ⊎ HistoryQuery
  pub search_query : R → ℕ ⊎ SearchQuery
  pub group_query : R → ℕ ⊎ GroupQuery
  pub group_history_query : R → ℕ ⊎ GroupHistoryQuery
  pub upgrade : R → ℕ ⊎ Unit {0}
  pub ws_query : R → ℕ ⊎ WsQuery

-- The bodies that the server answers with.
pub data Reply : Type 0 where
  page : String → Reply
  -- axum's own answer: a refused extraction, no such path, no such method.
  rejected : ℕ → Reply
  text : Response String → Reply
  friends : Response (List FriendInfo) → Reply
  conversations : Response (List ConversationItem) → Reply
  users : Response (List UserSearchItem) → Reply
  chats : Response (List ChatHistoryItem) → Reply
  group : Response GroupInfo → Reply
  groups : Response (List GroupInfo) → Reply
  members : Response (List GroupMember) → Reply
  messages : Response (List GroupHistoryItem) → Reply
  -- websocket_handler: the plain answer 401, or the switch to a WebSocket of the user.
  unauthorized : Reply
  upgraded : Uuid → Reply

abbrev pub status_of : Reply → ℕ
status_of (page name) = 200
status_of (rejected status) = status
status_of (text r) = r.status
status_of (friends r) = r.status
status_of (conversations r) = r.status
status_of (users r) = r.status
status_of (chats r) = r.status
status_of (group r) = r.status
status_of (groups r) = r.status
status_of (members r) = r.status
status_of (messages r) = r.status
status_of unauthorized = 401
status_of (upgraded uid) = 101

-- What one request draws from outside: the clock in seconds, `NOW()`, and a new UUID.
pub record Env : Type 0 where
  pub secs : ℕ
  pub now : Time
  pub fresh : Uuid

abbrev pub respond_with {ℓ} :
    {T : Type 0} → {R : Type ℓ} → (Response T → R) → Handler T → AppState → R × AppState
respond_with reply h s = let (r, s') = h s in (reply r, s')

-- A handler with the value of its extractor.
abbrev pub extracted :
    {T : Type 0} → ℕ ⊎ T → (T → AppState → Reply × AppState) → AppState → Reply × AppState
extracted (inl status) h s = (rejected status, s)
extracted (inr value) h s = h value s

abbrev pub admit : Option Claims → Reply
admit none = unauthorized
admit (some c) = upgraded c.user_id

module _ {R V : Type 0} (extract : Extract R) (json : Json V) (crypto : Crypto) (config : Config)
    (ilike collates : String → String → Bool) where
  -- The connection that follows is that of `handle_im_websocket`.
  unfoldable pub websocket_handler : Env → R → AppState → Reply × AppState
  websocket_handler env r = extracted (extract.upgrade r) λ _.
      extracted (extract.ws_query r) λ q s. (admit (verify_token crypto env.secs q.token config), s)

  abbrev pub handle : Endpoint → Env → R → AppState → Reply × AppState
  handle index env r s = (page "chat.html", s)
  handle debug env r s = (page "debug.html", s)
  handle websocket env r s = websocket_handler env r s
  handle user_register env r s =
      extracted (extract.register r)
        (λ q.
          respond_with text
            (user_register_handler crypto env.secs config env.now env.fresh q.username q.password))
        s
  handle user_login env r s =
      extracted (extract.login r)
        (λ q. respond_with text (user_login_handler crypto env.secs config q.username q.password)) s
  handle user_logout env r s =
      extracted (extract.login r)
        (λ q. respond_with text (user_logout_handler crypto env.secs config q.username q.password))
        s
  handle user_delete env r s =
      extracted (extract.delete r)
        (λ q. respond_with text (user_delete_handler crypto env.secs config q.token)) s
  handle message_history env r s =
      extracted (extract.history_query r)
        (λ q.
          respond_with chats (
            message_history_handler crypto env.secs config json q.token q.peer_uid q.before
              q.limit))
        s
  handle conversation_list env r s =
      extracted (extract.token_query r)
        (λ q. respond_with conversations (conversations_handler crypto env.secs config q.token)) s
  handle user_search env r s =
      extracted (extract.search_query r)
        (λ q.
          respond_with users (user_search_handler crypto env.secs config ilike q.token q.q q.limit))
        s
  handle group_create env r s =
      extracted (extract.create_group r)
        (λ q.
          respond_with group
            (group_create_handler crypto env.secs config env.now env.fresh q.token q.name))
        s
  handle group_join env r s =
      extracted (extract.group_action r)
        (λ q.
          respond_with text (group_join_handler crypto env.secs config env.now q.token q.group_id))
        s
  handle group_leave env r s =
      extracted (extract.group_action r)
        (λ q. respond_with text (group_leave_handler crypto env.secs config q.token q.group_id)) s
  handle group_list env r s =
      extracted (extract.token_query r)
        (λ q. respond_with groups (group_list_handler crypto env.secs config q.token)) s
  handle group_search env r s =
      extracted (extract.search_query r)
        (λ q.
          respond_with groups
            (group_search_handler crypto env.secs config ilike q.token q.q q.limit))
        s
  handle group_members env r s =
      extracted (extract.group_query r)
        (λ q.
          respond_with members (group_members_handler crypto env.secs config q.token q.group_id))
        s
  handle group_history env r s =
      extracted (extract.group_history_query r)
        (λ q.
          respond_with messages
            (group_history_handler crypto env.secs config json q.token q.group_id q.before q.limit))
        s
  handle friend_add env r s =
      extracted (extract.add_friend r)
        (λ q.
          respond_with text (friend_add_handler crypto env.secs config env.now q.token q.peer_uid))
        s
  handle friend_list env r s =
      extracted (extract.token_query r)
        (λ q. respond_with friends (friend_list_handler crypto env.secs config collates q.token)) s

  abbrev pub dispatch_to : ℕ ⊎ Endpoint → Env → R → AppState → Reply × AppState
  dispatch_to (inl status) env r s = (rejected status, s)
  dispatch_to (inr endpoint) env r s = handle endpoint env r s

  unfoldable pub serve : Env → Request R → AppState → Reply × AppState
  serve env req s = dispatch_to (find_route routes req.method req.path) env req.rest s
