-- ===== src/Router/Serve/Tokens.antt =====
-- src/router.rs: the endpoints that take a token, for a request whose token is not accepted.
use myx_im.Base.{
  ℕ, sym, subst, true, false, ◌≡◌, refl, String, Bool, ◌⊎◌, inl, inr, Option, none, some, arith,
}
use myx_im.Jwt.{Config, Crypto, Claims, verify_token}
use myx_im.Model.Requests.{WsQuery}
use myx_im.Service.{Response, refuse, delete_user}
use myx_im.Router.App.{AppState, Json}
use myx_im.Router.Http.{
  Handler, user_delete_handler, friend_add_handler, friend_list_handler, conversations_handler,
  user_search_handler, group_create_handler, group_join_handler, group_leave_handler,
  group_list_handler, group_search_handler, group_members_handler, message_history_handler,
  group_history_handler,
}
use myx_im.Router.Routes.{
  Request, Endpoint, index, debug, websocket, user_register, user_login, user_logout, user_delete,
  message_history, conversation_list, user_search, group_create, group_join, group_leave,
  group_list, group_search, group_members, group_history, friend_add, friend_list, find_route,
  routes,
}
use myx_im.Router.Serve.{
  Extract, Reply, rejected, text, friends, conversations, users, chats, group, groups, members,
  messages, status_of, Env, extracted, admit, respond_with, websocket_handler, handle, dispatch_to,
  serve,
}

abbrev pub needs_token : Endpoint → Bool
needs_token index = false
needs_token debug = false
needs_token user_register = false
needs_token user_login = false
needs_token user_logout = false
needs_token _ = true

abbrev token_at : {T : Type 0} → (T → String) → ℕ ⊎ T → Option String
token_at token (inl status) = none
token_at token (inr q) = some (token q)

-- The token of a request, where axum reads one.
abbrev pub token_of : {R : Type 0} → Extract R → Endpoint → R → Option String
token_of extract websocket r = token_at (λ q. q.token) (extract.ws_query r)
token_of extract user_delete r = token_at (λ q. q.token) (extract.delete r)
token_of extract message_history r = token_at (λ q. q.token) (extract.history_query r)
token_of extract conversation_list r = token_at (λ q. q.token) (extract.token_query r)
token_of extract user_search r = token_at (λ q. q.token) (extract.search_query r)
token_of extract group_create r = token_at (λ q. q.token) (extract.create_group r)
token_of extract group_join r = token_at (λ q. q.token) (extract.group_action r)
token_of extract group_leave r = token_at (λ q. q.token) (extract.group_action r)
token_of extract group_list r = token_at (λ q. q.token) (extract.token_query r)
token_of extract group_search r = token_at (λ q. q.token) (extract.search_query r)
token_of extract group_members r = token_at (λ q. q.token) (extract.group_query r)
token_of extract group_history r = token_at (λ q. q.token) (extract.group_history_query r)
token_of extract friend_add r = token_at (λ q. q.token) (extract.add_friend r)
token_of extract friend_list r = token_at (λ q. q.token) (extract.token_query r)
token_of extract _ r = none

-- The answer is 401 or a refused extraction, and nothing has changed.
abbrev pub IsTurnedAway : AppState → Reply × AppState → Type 0
IsTurnedAway s (reply, s') =
    ((status_of reply ≡ 401) ⊎ ((status : ℕ) × (reply ≡ rejected status))) × (s' ≡ s)

module _ (crypto : Crypto) (config : Config) (secs : ℕ) (s : AppState) where
  -- One endpoint: the extractor, and the handler, which refuses the token.
  turned_away :
      {T U : Type 0} (x : ℕ ⊎ T) (token : T → String) (reply : Response U → Reply)
      (h : T → Handler U)
      → status_of (reply (refuse 401 "invalid token")) ≡ 401
      → ((t : String) → token_at token x ≡ some t → verify_token crypto secs t config ≡ none)
      → ((q : T)
          → verify_token crypto secs (token q) config ≡ none
          → h q s ≡ (refuse 401 "invalid token", s))
      → IsTurnedAway s (extracted x (λ q. respond_with reply (h q)) s)
  turned_away (inl status) token reply h e v k = (inr (status, refl), refl)
  turned_away (inr q) token reply h e v k =
      subst (λ r. IsTurnedAway s (reply r.0, r.1)) (sym (k q (v (token q) refl))) (inl e, refl)

  not_admitted : (c : Option Claims) → c ≡ none → IsTurnedAway s (admit c, s)
  not_admitted c e = rw e (inl refl, refl)

module _ {R V : Type 0} (extract : Extract R) (json : Json V) (crypto : Crypto) (config : Config)
    (ilike collates : String → String → Bool) where
  websocket-IsTurnedAway :
      (env : Env) (r : R) (s : AppState)
      → ((t : String)
          → token_of extract websocket r ≡ some t
          → verify_token crypto env.secs t config ≡ none)
      → IsTurnedAway s (websocket_handler extract json crypto config ilike collates env r s)
  unfolding websocket_handler
  websocket-IsTurnedAway env r s v = upgrade (extract.upgrade r) (extract.ws_query r) v
    where
      upgrade :
          (u : ℕ ⊎ Unit {0}) (x : ℕ ⊎ WsQuery)
          → ((t : String)
              → token_at (λ q. q.token) x ≡ some t
              → verify_token crypto env.secs t config ≡ none)
          → IsTurnedAway s (
              extracted u
                (λ _. extracted x λ q s. (admit (verify_token crypto env.secs q.token config), s))
                s)
      upgrade (inl status) x v = (inr (status, refl), refl)
      upgrade (inr tt) (inl status) v = (inr (status, refl), refl)
      upgrade (inr tt) (inr q) v =
          not_admitted crypto config env.secs s (verify_token crypto env.secs q.token config)
            (v q.token refl)

  handle-IsTurnedAway :
      (e : Endpoint) (env : Env) (r : R) (s : AppState)
      → needs_token e ≡ true
      → ((t : String)
          → token_of extract e r ≡ some t
          → verify_token crypto env.secs t config ≡ none)
      → IsTurnedAway s (handle extract json crypto config ilike collates e env r s)
  unfolding friend_add_handler friend_list_handler conversations_handler user_search_handler
      group_create_handler group_join_handler group_leave_handler group_list_handler
      group_search_handler group_members_handler message_history_handler group_history_handler
      user_delete_handler delete_user
  handle-IsTurnedAway index env r s n v = absurd (ground arith)
  handle-IsTurnedAway debug env r s n v = absurd (ground arith)
  handle-IsTurnedAway user_register env r s n v = absurd (ground arith)
  handle-IsTurnedAway user_login env r s n v = absurd (ground arith)
  handle-IsTurnedAway user_logout env r s n v = absurd (ground arith)
  handle-IsTurnedAway websocket env r s n v = websocket-IsTurnedAway env r s v
  handle-IsTurnedAway message_history env r s n v =
      turned_away crypto config env.secs s (extract.history_query r) (λ q. q.token) chats
        (λ q.
          message_history_handler crypto env.secs config json q.token q.peer_uid q.before q.limit)
        refl v (λ q e. rw e)
  handle-IsTurnedAway conversation_list env r s n v =
      turned_away crypto config env.secs s (extract.token_query r) (λ q. q.token) conversations
        (λ q. conversations_handler crypto env.secs config q.token) refl v (λ q e. rw e)
  handle-IsTurnedAway user_search env r s n v =
      turned_away crypto config env.secs s (extract.search_query r) (λ q. q.token) users
        (λ q. user_search_handler crypto env.secs config ilike q.token q.q q.limit) refl v
        (λ q e. rw e)
  handle-IsTurnedAway group_create env r s n v =
      turned_away crypto config env.secs s (extract.create_group r) (λ q. q.token) group
        (λ q. group_create_handler crypto env.secs config env.now env.fresh q.token q.name) refl v
        (λ q e. rw e)
  handle-IsTurnedAway group_join env r s n v =
      turned_away crypto config env.secs s (extract.group_action r) (λ q. q.token) text
        (λ q. group_join_handler crypto env.secs config env.now q.token q.group_id) refl v
        (λ q e. rw e)
  handle-IsTurnedAway group_leave env r s n v =
      turned_away crypto config env.secs s (extract.group_action r) (λ q. q.token) text
        (λ q. group_leave_handler crypto env.secs config q.token q.group_id) refl v (λ q e. rw e)
  handle-IsTurnedAway group_list env r s n v =
      turned_away crypto config env.secs s (extract.token_query r) (λ q. q.token) groups
        (λ q. group_list_handler crypto env.secs config q.token) refl v (λ q e. rw e)
  handle-IsTurnedAway group_search env r s n v =
      turned_away crypto config env.secs s (extract.search_query r) (λ q. q.token) groups
        (λ q. group_search_handler crypto env.secs config ilike q.token q.q q.limit) refl v
        (λ q e. rw e)
  handle-IsTurnedAway group_members env r s n v =
      turned_away crypto config env.secs s (extract.group_query r) (λ q. q.token) members
        (λ q. group_members_handler crypto env.secs config q.token q.group_id) refl v (λ q e. rw e)
  handle-IsTurnedAway group_history env r s n v =
      turned_away crypto config env.secs s (extract.group_history_query r) (λ q. q.token) messages
        (λ q. group_history_handler crypto env.secs config json q.token q.group_id q.before q.limit)
        refl v (λ q e. rw e)
  handle-IsTurnedAway friend_add env r s n v =
      turned_away crypto config env.secs s (extract.add_friend r) (λ q. q.token) text
        (λ q. friend_add_handler crypto env.secs config env.now q.token q.peer_uid) refl v
        (λ q e. rw e)
  handle-IsTurnedAway friend_list env r s n v =
      turned_away crypto config env.secs s (extract.token_query r) (λ q. q.token) friends
        (λ q. friend_list_handler crypto env.secs config collates q.token) refl v (λ q e. rw e)
  handle-IsTurnedAway user_delete env r s n v =
      turned_away crypto config env.secs s (extract.delete r) (λ q. q.token) text
        (λ q. user_delete_handler crypto env.secs config q.token) refl v (λ q e. rw e)

  -- A request that is routed to an endpoint which needs a token, and whose token (if axum reads one)
  -- is not accepted, is answered 401 or with axum's own refusal of the request, and changes neither
  -- the database nor any connection.
  pub serve-IsTurnedAway :
      (env : Env) (req : Request R) (s : AppState) (e : Endpoint)
      → find_route routes req.method req.path ≡ inr e
      → needs_token e ≡ true
      → ((t : String)
          → token_of extract e req.rest ≡ some t
          → verify_token crypto env.secs t config ≡ none)
      → IsTurnedAway s (serve extract json crypto config ilike collates env req s)
  unfolding serve
  serve-IsTurnedAway env req s e found n v =
      subst
        (λ x.
          IsTurnedAway s (dispatch_to extract json crypto config ilike collates x env req.rest s))
        (sym found) (handle-IsTurnedAway e env req.rest s n v)
