-- ===== src/Router/Serve/Privacy.antt =====
-- src/router.rs: who may read a private message over HTTP, whichever route is asked for.
use myx_im.Base.{◌≡◌, refl, ℕ, String, Bool, ◌⊎◌, inl, inr, Option, none, some, List}
use myx_im.Base.Rows.{All, All-map}
use myx_im.Model.{ChatHistoryItem, ConversationItem}
use myx_im.Model.Requests.{HistoryQuery, TokenQuery}
use myx_im.Db.{ChatMessage}
use myx_im.Jwt.{Config, Crypto, Claims, verify_token}
use myx_im.Router.App.{AppState, Json}
use myx_im.Router.Routes.{
  Request, Endpoint, index, debug, websocket, user_register, user_login, user_logout, user_delete,
  message_history, conversation_list, user_search, group_create, group_join, group_leave,
  group_list, group_search, group_members, group_history, friend_add, friend_list, find_route,
  routes,
}
use myx_im.Router.Serve.{
  Extract, Reply, chats, conversations, Env, extracted, admit, websocket_handler, handle,
  dispatch_to, serve,
}
use myx_im.Router.Http.Privacy.{
  rows_of, IsOwn, IsOwnQuote, message_history_handler-IsOwn, conversations_handler-IsOwnQuote,
}

-- The request has a query for the history, with a token that is accepted, and the message is one
-- between the token's user and the peer of the query.
abbrev pub IsReadable :
    {R : Type 0} → Extract R → Crypto → Config → Env → R → ChatHistoryItem → Type 0
IsReadable extract crypto config env r i =
    (q : HistoryQuery) × (extract.history_query r ≡ inr q)
    × IsOwn crypto env.secs config q.token q.peer_uid i

-- The request has a token that is accepted, and the entry quotes a message between the token's user
-- and the peer of the entry.
abbrev pub IsQuotable :
    {R : Type 0}
    → Extract R
    → Crypto
    → Config
    → Env
    → R
    → List ChatMessage
    → ConversationItem
    → Type 0
IsQuotable extract crypto config env r ms i =
    (q : TokenQuery) × (extract.token_query r ≡ inr q)
    × IsOwnQuote crypto env.secs config ms q.token i

module _ {R : Type 0} (extract : Extract R) (crypto : Crypto) (config : Config) where
  -- What an answer shows of private messages: those of a history, and those that conversations
  -- quote. No other answer has any.
  abbrev pub IsPrivate : Env → R → List ChatMessage → Reply → Type 0
  IsPrivate env r ms (chats body) =
      All (IsReadable extract crypto config env r) (rows_of body.res.data_)
  IsPrivate env r ms (conversations body) =
      All (IsQuotable extract crypto config env r ms) (rows_of body.res.data_)
  IsPrivate env r ms _ = Unit {0}

  admit-IsPrivate :
      (env : Env) (r : R) (ms : List ChatMessage) (c : Option Claims) → IsPrivate env r ms (admit c)
  admit-IsPrivate env r ms none = tt
  admit-IsPrivate env r ms (some c) = tt

  extracted-IsPrivate :
      {T : Type 0} (env : Env) (r : R) (ms : List ChatMessage) (x : ℕ ⊎ T)
      (h : T → AppState → Reply × AppState) (s : AppState)
      → ((q : T) → x ≡ inr q → IsPrivate env r ms (h q s).0)
      → IsPrivate env r ms (extracted x h s).0
  extracted-IsPrivate env r ms (inl status) h s b = tt
  extracted-IsPrivate env r ms (inr q) h s b = b q refl

module _ {R V : Type 0} (extract : Extract R) (json : Json V) (crypto : Crypto) (config : Config)
    (ilike collates : String → String → Bool) where
  abbrev Shows : Env → R → AppState → Reply → Type 0
  Shows env r s = IsPrivate extract crypto config env r s.pool.db.chat_messages

  read_by :
      {T : Type 0} (env : Env) (r : R) (s : AppState) (x : ℕ ⊎ T)
      (h : T → AppState → Reply × AppState)
      → ((q : T) → x ≡ inr q → Shows env r s (h q s).0)
      → Shows env r s (extracted x h s).0
  read_by env r s x h =
      extracted-IsPrivate extract crypto config env r s.pool.db.chat_messages x h s

  handle-IsPrivate :
      (e : Endpoint) (env : Env) (r : R) (s : AppState)
      → Shows env r s (handle extract json crypto config ilike collates e env r s).0
  unfolding websocket_handler
  handle-IsPrivate index env r s = tt
  handle-IsPrivate debug env r s = tt
  handle-IsPrivate websocket env r s = read_by env r s (extract.upgrade r) _ λ _ _.
      read_by env r s (extract.ws_query r) _ λ q _.
        admit-IsPrivate extract crypto config env r s.pool.db.chat_messages
          (verify_token crypto env.secs q.token config)
  handle-IsPrivate user_register env r s = read_by env r s (extract.register r) _ (λ q e. tt)
  handle-IsPrivate user_login env r s = read_by env r s (extract.login r) _ (λ q e. tt)
  handle-IsPrivate user_logout env r s = read_by env r s (extract.login r) _ (λ q e. tt)
  handle-IsPrivate user_delete env r s = read_by env r s (extract.delete r) _ (λ q e. tt)
  handle-IsPrivate message_history env r s = read_by env r s (extract.history_query r) _ λ q e.
      All-map _ _ _ (λ i own. (q, e, own))
        (message_history_handler-IsOwn crypto env.secs config json q.token q.peer_uid q.before
          q.limit s)
  handle-IsPrivate conversation_list env r s = read_by env r s (extract.token_query r) _ λ q e.
      All-map _ _ _ (λ i own. (q, e, own))
        (conversations_handler-IsOwnQuote crypto env.secs config q.token s)
  handle-IsPrivate user_search env r s = read_by env r s (extract.search_query r) _ (λ q e. tt)
  handle-IsPrivate group_create env r s = read_by env r s (extract.create_group r) _ (λ q e. tt)
  handle-IsPrivate group_join env r s = read_by env r s (extract.group_action r) _ (λ q e. tt)
  handle-IsPrivate group_leave env r s = read_by env r s (extract.group_action r) _ (λ q e. tt)
  handle-IsPrivate group_list env r s = read_by env r s (extract.token_query r) _ (λ q e. tt)
  handle-IsPrivate group_search env r s = read_by env r s (extract.search_query r) _ (λ q e. tt)
  handle-IsPrivate group_members env r s = read_by env r s (extract.group_query r) _ (λ q e. tt)
  handle-IsPrivate group_history env r s =
      read_by env r s (extract.group_history_query r) _ (λ q e. tt)
  handle-IsPrivate friend_add env r s = read_by env r s (extract.add_friend r) _ (λ q e. tt)
  handle-IsPrivate friend_list env r s = read_by env r s (extract.token_query r) _ (λ q e. tt)

  dispatch-IsPrivate :
      (e : ℕ ⊎ Endpoint) (env : Env) (r : R) (s : AppState)
      → Shows env r s (dispatch_to extract json crypto config ilike collates e env r s).0
  dispatch-IsPrivate (inl status) env r s = tt
  dispatch-IsPrivate (inr e) env r s = handle-IsPrivate e env r s

  -- Whichever route is asked for and whatever the tables hold, every message of a private history in
  -- an answer is one between the user of a token that the server accepts and the peer that the same
  -- query names, and every entry of conversations quotes a stored message between the user of the
  -- token that came with the request, which the server accepts, and the peer that the entry names.
  pub serve-IsPrivate :
      (env : Env) (req : Request R) (s : AppState)
      → IsPrivate extract crypto config env req.rest s.pool.db.chat_messages
          (serve extract json crypto config ilike collates env req s).0
  unfolding serve
  serve-IsPrivate env req s =
      dispatch-IsPrivate (find_route routes req.method req.path) env req.rest s
