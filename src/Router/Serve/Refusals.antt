-- ===== src/Router/Serve/Refusals.antt =====
-- src/router.rs: a request that is answered with a client error changes nothing.
use myx_im.Base.{ℕ, ◌≡◌, refl, String, Bool, true, ◌⊎◌, inl, inr}
use myx_im.Db.{Db}
use myx_im.Db.Statement.{healthy}
use myx_im.Jwt.{Config, Crypto}
use myx_im.State.{Online}
use myx_im.Router.App.{AppState, Json}
use myx_im.Router.Http.Refusals.{
  is_client_error, friend_add-Spares, group_join-Spares, group_create-Spares, user_delete-Spares,
}
use myx_im.Router.Http.Refusals.Accounts.{
  user_register-Spares, user_login-Spares, user_logout-Spares,
}
use myx_im.Router.Http.Refusals.Reads.{
  friend_list-Spares, conversations-Spares, user_search-Spares, group_leave-Spares,
  group_list-Spares, group_search-Spares, group_members-Spares, message_history-Spares,
  group_history-Spares,
}
use myx_im.Router.Routes.{
  Request, Endpoint, index, debug, websocket, user_register, user_login, user_logout, user_delete,
  message_history, conversation_list, user_search, group_create, group_join, group_leave,
  group_list, group_search, group_members, group_history, friend_add, friend_list, find_route,
  routes,
}
use myx_im.Router.Serve.{
  Extract, Reply, status_of, Env, extracted, websocket_handler, handle, dispatch_to, serve,
}

-- A step that changes the pool does not answer with a client error.
abbrev SparesReply : (AppState → Reply × AppState) → AppState → Type 0
SparesReply h s = is_client_error (status_of (h s).0) ≡ true → (h s).1.pool ≡ s.pool

extracted-SparesReply :
    {T : Type 0} (x : ℕ ⊎ T) (h : T → AppState → Reply × AppState) (s : AppState)
    → ((q : T) → SparesReply (h q) s)
    → SparesReply (extracted x h) s
extracted-SparesReply (inl status) h s k e = refl
extracted-SparesReply (inr q) h s k e = k q e

module _ {R V : Type 0} (extract : Extract R) (json : Json V) (crypto : Crypto) (config : Config)
    (ilike collates : String → String → Bool) (db : Db) (online : Online) where
  abbrev before : AppState
  before = record { pool = healthy db; online = online }

  handle-SparesReply :
      (e : Endpoint) (env : Env) (r : R)
      → SparesReply (handle extract json crypto config ilike collates e env r) before
  unfolding websocket_handler
  handle-SparesReply index env r = λ e. refl
  handle-SparesReply debug env r = λ e. refl
  handle-SparesReply websocket env r =
      extracted-SparesReply (extract.upgrade r) _ before
        λ _. extracted-SparesReply (extract.ws_query r) _ before λ q e. refl
  handle-SparesReply user_register env r = extracted-SparesReply (extract.register r) _ before λ q.
      user_register-Spares crypto env.secs config db online env.now env.fresh q.username q.password
  handle-SparesReply user_login env r =
      extracted-SparesReply (extract.login r) _ before
        λ q. user_login-Spares crypto env.secs config db online q.username q.password
  handle-SparesReply user_logout env r =
      extracted-SparesReply (extract.login r) _ before
        λ q. user_logout-Spares crypto env.secs config db online q.username q.password
  handle-SparesReply user_delete env r =
      extracted-SparesReply (extract.delete r) _ before
        λ q. user_delete-Spares crypto env.secs config db online q.token
  handle-SparesReply group_create env r =
      extracted-SparesReply (extract.create_group r) _ before
        λ q. group_create-Spares crypto env.secs config db online q.token env.now env.fresh q.name
  handle-SparesReply group_join env r =
      extracted-SparesReply (extract.group_action r) _ before
        λ q. group_join-Spares crypto env.secs config db online q.token env.now q.group_id
  handle-SparesReply friend_add env r =
      extracted-SparesReply (extract.add_friend r) _ before
        λ q. friend_add-Spares crypto env.secs config db online q.token env.now q.peer_uid
  handle-SparesReply group_leave env r =
      extracted-SparesReply (extract.group_action r) _ before
        λ q. group_leave-Spares json crypto env.secs config q.token before q.group_id
  handle-SparesReply message_history env r =
      extracted-SparesReply (extract.history_query r) _ before λ q.
        message_history-Spares json crypto env.secs config q.token before q.peer_uid q.before
          q.limit
  handle-SparesReply conversation_list env r =
      extracted-SparesReply (extract.token_query r) _ before
        λ q. conversations-Spares json crypto env.secs config q.token before
  handle-SparesReply user_search env r =
      extracted-SparesReply (extract.search_query r) _ before
        λ q. user_search-Spares json crypto env.secs config q.token before ilike q.q q.limit
  handle-SparesReply group_list env r =
      extracted-SparesReply (extract.token_query r) _ before
        λ q. group_list-Spares json crypto env.secs config q.token before
  handle-SparesReply group_search env r =
      extracted-SparesReply (extract.search_query r) _ before
        λ q. group_search-Spares json crypto env.secs config q.token before ilike q.q q.limit
  handle-SparesReply group_members env r =
      extracted-SparesReply (extract.group_query r) _ before
        λ q. group_members-Spares json crypto env.secs config q.token before q.group_id
  handle-SparesReply group_history env r =
      extracted-SparesReply (extract.group_history_query r) _ before λ q.
        group_history-Spares json crypto env.secs config q.token before q.group_id q.before q.limit
  handle-SparesReply friend_list env r =
      extracted-SparesReply (extract.token_query r) _ before
        λ q. friend_list-Spares json crypto env.secs config q.token before collates

  dispatch-SparesReply :
      (e : ℕ ⊎ Endpoint) (env : Env) (r : R)
      → SparesReply (dispatch_to extract json crypto config ilike collates e env r) before
  dispatch-SparesReply (inl status) env r = λ e. refl
  dispatch-SparesReply (inr endpoint) env r = handle-SparesReply endpoint env r

  -- Where no statement fails, a request that is answered with a status from 400 to 499 has changed no
  -- row and no sequence, whatever it asked for.
  pub serve-client_error :
      (env : Env) (req : Request R)
      → is_client_error
          (status_of (serve extract json crypto config ilike collates env req before).0)
        ≡ true
      → (serve extract json crypto config ilike collates env req before).1.pool ≡ healthy db
  unfolding serve
  serve-client_error env req =
      dispatch-SparesReply (find_route routes req.method req.path) env req.rest
