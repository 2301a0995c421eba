-- ===== src/Router/Server/Requests.antt =====
-- A run of the server keeps what the operations of src/dao.rs keep.
use myx_im.Base.{ℕ, refl, String, Bool, ◌⊎◌, inl, inr}
use myx_im.Db.{Db}
use myx_im.Jwt.{Config, Crypto}
use myx_im.Dao.Keeps.{DaoKeeps-CommandKeeps, DaoKeeps}
use myx_im.Service.{Response}
use myx_im.Router.App.{AppState, Json}
use myx_im.Router.Http.{Handler}
use myx_im.Router.Routes.{
  Endpoint, index, debug, websocket, user_register, user_login, user_logout, user_delete,
  message_history, conversation_list, user_search, group_create, group_join, group_leave,
  group_list, group_search, group_members, group_history, friend_add, friend_list, find_route,
  routes,
}
use myx_im.Router.Serve.{
  Extract, Env, Reply, extracted, handle, serve, websocket_handler, respond_with, dispatch_to,
}
use myx_im.Router.Server.{
  Happens, serves, receives, syncs, connections, falters, Runs, here, then_next,
}
use myx_im.Router.Server.Keeps.{KeepsReply}
use myx_im.Router.Server.Commands.{handle_biz_msg-KeepsState, sync-KeepsState}
use myx_im.Router.Server.Replies.{quiet_reply}
use myx_im.Router.Server.Accounts.{
  user_register-KeepsReply, user_login-KeepsReply, user_logout-KeepsReply, user_delete-KeepsReply,
}
use myx_im.Router.Server.Handlers.{
  friend_list-KeepsReply, friend_add-KeepsReply, conversations-KeepsReply, user_search-KeepsReply,
  group_create-KeepsReply, group_join-KeepsReply, group_leave-KeepsReply, group_list-KeepsReply,
  group_search-KeepsReply, group_members-KeepsReply, message_history-KeepsReply,
  group_history-KeepsReply,
}

module _ (P : Db → Type 0) where
  extracted_keeps :
      {T : Type 0} (e : ℕ ⊎ T) {h : T → AppState → Reply × AppState}
      → ((t : T) → KeepsReply P (h t))
      → KeepsReply P (extracted e h)
  extracted_keeps (inl status) k = quiet_reply P (λ s. refl)
  extracted_keeps (inr t) k = k t

  replied :
      {T : Type 0} (reply : Response T → Reply) (h : Handler T)
      → KeepsReply P h
      → KeepsReply P (respond_with reply h)
  replied reply h k = record { keeps = λ s v. k.keeps s v }

module _ {R V : Type 0} (extract : Extract R) (json : Json V) (crypto : Crypto) (config : Config)
    (ilike collates : String → String → Bool) where
  module _ (P : Db → Type 0) (k : DaoKeeps P) where
    handle_keeps :
        (endpoint : Endpoint) (env : Env) (r : R)
        → KeepsReply P (handle extract json crypto config ilike collates endpoint env r)
    unfolding websocket_handler
    handle_keeps index env r = quiet_reply P (λ s. refl)
    handle_keeps debug env r = quiet_reply P (λ s. refl)
    handle_keeps websocket env r =
        extracted_keeps P (extract.upgrade r)
          (λ u. extracted_keeps P (extract.ws_query r) (λ q. quiet_reply P (λ s. refl)))
    handle_keeps user_register env r = extracted_keeps P (extract.register r) (λ q.
        replied P Reply.text _ (
          user_register-KeepsReply P k crypto env.secs config env.now env.fresh q.username
            q.password))
    handle_keeps user_login env r = extracted_keeps P (extract.login r) (λ q.
        replied P Reply.text _
          (user_login-KeepsReply P k crypto env.secs config q.username q.password))
    handle_keeps user_logout env r = extracted_keeps P (extract.login r) (λ q.
        replied P Reply.text _
          (user_logout-KeepsReply P k crypto env.secs config q.username q.password))
    handle_keeps user_delete env r =
        extracted_keeps P (extract.delete r)
          (λ q. replied P Reply.text _ (user_delete-KeepsReply P k crypto env.secs config q.token))
    handle_keeps message_history env r = extracted_keeps P (extract.history_query r) (λ q.
        replied P Reply.chats _ (
          message_history-KeepsReply P k crypto env.secs config q.token json q.peer_uid q.before
            q.limit))
    handle_keeps conversation_list env r = extracted_keeps P (extract.token_query r) (λ q.
        replied P Reply.conversations _
          (conversations-KeepsReply P k crypto env.secs config q.token))
    handle_keeps user_search env r = extracted_keeps P (extract.search_query r) (λ q.
        replied P Reply.users _
          (user_search-KeepsReply P k crypto env.secs config q.token ilike q.q q.limit))
    handle_keeps group_create env r = extracted_keeps P (extract.create_group r) (λ q.
        replied P Reply.group _
          (group_create-KeepsReply P k crypto env.secs config q.token env.now env.fresh q.name))
    handle_keeps group_join env r = extracted_keeps P (extract.group_action r) (λ q.
        replied P Reply.text _
          (group_join-KeepsReply P k crypto env.secs config q.token env.now q.group_id))
    handle_keeps group_leave env r = extracted_keeps P (extract.group_action r) (λ q.
        replied P Reply.text _
          (group_leave-KeepsReply P k crypto env.secs config q.token q.group_id))
    handle_keeps group_list env r =
        extracted_keeps P (extract.token_query r)
          (λ q. replied P Reply.groups _ (group_list-KeepsReply P k crypto env.secs config q.token))
    handle_keeps group_search env r = extracted_keeps P (extract.search_query r) (λ q.
        replied P Reply.groups _
          (group_search-KeepsReply P k crypto env.secs config q.token ilike q.q q.limit))
    handle_keeps group_members env r = extracted_keeps P (extract.group_query r) (λ q.
        replied P Reply.members _
          (group_members-KeepsReply P k crypto env.secs config q.token q.group_id))
    handle_keeps group_history env r = extracted_keeps P (extract.group_history_query r) (λ q.
        replied P Reply.messages _ (
          group_history-KeepsReply P k crypto env.secs config q.token json q.group_id q.before
            q.limit))
    handle_keeps friend_add env r = extracted_keeps P (extract.add_friend r) (λ q.
        replied P Reply.text _
          (friend_add-KeepsReply P k crypto env.secs config q.token env.now q.peer_uid))
    handle_keeps friend_list env r = extracted_keeps P (extract.token_query r) (λ q.
        replied P Reply.friends _
          (friend_list-KeepsReply P k crypto env.secs config q.token collates))

    dispatch_to_keeps :
        (found : ℕ ⊎ Endpoint) (env : Env) (r : R)
        → KeepsReply P (dispatch_to extract json crypto config ilike collates found env r)
    dispatch_to_keeps (inl status) env r = quiet_reply P (λ s. refl)
    dispatch_to_keeps (inr endpoint) env r = handle_keeps endpoint env r

    -- One step of the server, and a whole run.
    Happens_keeps :
        {s t : AppState}
        → Happens extract json crypto config ilike collates s t
        → P s.pool.db
        → P t.pool.db
    unfolding serve
    Happens_keeps {s} (serves env req) v =
        (dispatch_to_keeps (find_route routes req.method req.path) env req.rest).keeps s v
    Happens_keeps {s} (receives uid tx now send_time text) v =
        (handle_biz_msg-KeepsState P json uid tx (λ gid. Unit {0}) (DaoKeeps-CommandKeeps P uid k)
            now send_time text).keeps
          s v
    Happens_keeps {s} (syncs uid tx) v = (sync-KeepsState P json uid tx).keeps s v
    Happens_keeps (connections online) v = v
    Happens_keeps (falters faults) v = v

    pub Runs_keeps :
        {s t : AppState}
        → P s.pool.db
        → Runs extract json crypto config ilike collates s t
        → P t.pool.db
    Runs_keeps v here = v
    Runs_keeps v (then_next r h) = Happens_keeps h (Runs_keeps v r)
