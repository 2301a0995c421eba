-- ===== src/Router/Serve/Bounds.antt =====
-- src/router.rs: how many rows any answer of the server holds.
use myx_im.Base.{ℕ, ◌≤◌, String, Bool, ◌⊎◌, inl, inr, Option, none, some, arith}
use myx_im.Jwt.{Config, Crypto, Claims, verify_token}
use myx_im.Router.App.{AppState, Json}
use myx_im.Router.Routes.{
  Request, Endpoint, index, debug, websocket, user_register, user_login, user_logout, user_delete,
  message_history, conversation_list, user_search, group_create, group_join, group_leave,
  group_list, group_search, group_members, group_history, friend_add, friend_list, find_route,
  routes,
}
use myx_im.Router.Serve.{
  Extract, Reply, users, chats, messages, Env, extracted, admit, websocket_handler, handle,
  dispatch_to, serve,
}
use myx_im.Router.Http.Bounds.{
  items_of, user_search_handler-items, group_history_handler-items, message_history_handler-items,
}

-- The messages or found users in an answer.
abbrev pub page_size : Reply → ℕ
page_size (users r) = items_of r.res.data_
page_size (chats r) = items_of r.res.data_
page_size (messages r) = items_of r.res.data_
page_size _ = 0

extracted_size :
    {T : Type 0} (most : ℕ) (x : ℕ ⊎ T) (h : T → AppState → Reply × AppState) (s : AppState)
    → ((q : T) → page_size (h q s).0 ≤ most)
    → page_size (extracted x h s).0 ≤ most
extracted_size most (inl status) h s b = omega arith
extracted_size most (inr q) h s b = b q

admit_size : (most : ℕ) (c : Option Claims) → page_size (admit c) ≤ most
admit_size most none = omega arith
admit_size most (some c) = omega arith

module _ {R V : Type 0} (extract : Extract R) (json : Json V) (crypto : Crypto) (config : Config)
    (ilike collates : String → String → Bool) where
  handle_size :
      (e : Endpoint) (env : Env) (r : R) (s : AppState)
      → page_size (handle extract json crypto config ilike collates e env r s).0 ≤ 100
  unfolding websocket_handler
  handle_size index env r s = omega arith
  handle_size debug env r s = omega arith
  handle_size websocket env r s = extracted_size 100 (extract.upgrade r) _ s λ _.
      extracted_size 100 (extract.ws_query r) _ s
        λ q. admit_size 100 (verify_token crypto env.secs q.token config)
  handle_size user_register env r s = extracted_size 100 (extract.register r) _ s (λ q. omega arith)
  handle_size user_login env r s = extracted_size 100 (extract.login r) _ s (λ q. omega arith)
  handle_size user_logout env r s = extracted_size 100 (extract.login r) _ s (λ q. omega arith)
  handle_size user_delete env r s = extracted_size 100 (extract.delete r) _ s (λ q. omega arith)
  handle_size message_history env r s = extracted_size 100 (extract.history_query r) _ s λ q.
      message_history_handler-items crypto env.secs config q.token s json q.peer_uid q.before
        q.limit
  handle_size conversation_list env r s =
      extracted_size 100 (extract.token_query r) _ s (λ q. omega arith)
  handle_size user_search env r s = extracted_size 100 (extract.search_query r) _ s λ q.
      omega (arith, user_search_handler-items crypto env.secs config q.token s ilike q.q q.limit)
  handle_size group_create env r s =
      extracted_size 100 (extract.create_group r) _ s (λ q. omega arith)
  handle_size group_join env r s =
      extracted_size 100 (extract.group_action r) _ s (λ q. omega arith)
  handle_size group_leave env r s =
      extracted_size 100 (extract.group_action r) _ s (λ q. omega arith)
  handle_size group_list env r s = extracted_size 100 (extract.token_query r) _ s (λ q. omega arith)
  handle_size group_search env r s =
      extracted_size 100 (extract.search_query r) _ s (λ q. omega arith)
  handle_size group_members env r s =
      extracted_size 100 (extract.group_query r) _ s (λ q. omega arith)
  handle_size group_history env r s = extracted_size 100 (extract.group_history_query r) _ s λ q.
      group_history_handler-items crypto env.secs config q.token s json q.group_id q.before q.limit
  handle_size friend_add env r s = extracted_size 100 (extract.add_friend r) _ s (λ q. omega arith)
  handle_size friend_list env r s =
      extracted_size 100 (extract.token_query r) _ s (λ q. omega arith)

  dispatch_size :
      (e : ℕ ⊎ Endpoint) (env : Env) (r : R) (s : AppState)
      → page_size (dispatch_to extract json crypto config ilike collates e env r s).0 ≤ 100
  dispatch_size (inl status) env r s = omega arith
  dispatch_size (inr e) env r s = handle_size e env r s

  -- Whatever a request asks for, and whatever the tables hold, an answer has at most 100 messages of
  -- a history or found users.
  pub page_size-serve :
      (env : Env) (req : Request R) (s : AppState)
      → page_size (serve extract json crypto config ilike collates env req s).0 ≤ 100
  unfolding serve
  page_size-serve env req s = dispatch_size (find_route routes req.method req.path) env req.rest s
