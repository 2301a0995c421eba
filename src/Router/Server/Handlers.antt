-- ===== src/Router/Server/Handlers.antt =====
-- The HTTP handlers with a token keep what the operations of src/dao.rs keep.
use myx_im.Base.{ℕ, ◌≡◌, refl, String, Bool, Option, List, arith, same, ◌==◌}
use myx_im.Base.Int.{ℤ}
use myx_im.Db.{Db}
use myx_im.Jwt.{Config, Crypto, verify_token}
use myx_im.Dao.Users.{search_users}
use myx_im.Dao.Chat.{get_chat_history, get_conversations}
use myx_im.Dao.Friends.{add_friend, list_friends}
use myx_im.Dao.Groups.{
  create_group, join_group, leave_group, list_my_groups, search_groups, list_group_members,
}
use myx_im.Dao.GroupMessages.{get_group_history}
use myx_im.Dao.Keeps.{
  DaoKeeps, search_users-Keeps, get_conversations-Keeps, list_friends-Keeps, list_my_groups-Keeps,
  search_groups-Keeps, list_group_members-Keeps, get_group_history-Keeps,
}
use myx_im.Router.App.{AppState, Json}
use myx_im.Router.Trim.{trim}
use myx_im.Router.Http.{
  friend_add_handler, friend_list_handler, conversations_handler, user_search_handler,
  group_create_handler, group_join_handler, group_leave_handler, group_list_handler,
  group_search_handler, group_members_handler, message_history_handler, group_history_handler,
  clamp_limit, tell_peer,
}
use myx_im.Router.Server.Keeps.{KeepsReply, query-KeepsReply}
use myx_im.Router.Server.Commands.{mark_and_push-KeepsState}
use myx_im.Router.Server.Replies.{quiet_reply, with_claims-Keeps, respond-Keeps, if-Keeps}

module _ (P : Db → Type 0) (k : DaoKeeps P) (crypto : Crypto) (secs : ℕ) (config : Config) where
  module _ (token : String) where
    pub friend_list-KeepsReply :
        (collates : String → String → Bool)
        → KeepsReply P (friend_list_handler crypto secs config collates token)
    unfolding friend_list_handler
    friend_list-KeepsReply collates =
        with_claims-Keeps P (verify_token crypto secs token config) (λ c.
          respond-Keeps P (list_friends collates c.user_id) _ _
            (list_friends-Keeps P collates c.user_id))

    pub friend_add-KeepsReply :
        (now peer : ℕ) → KeepsReply P (friend_add_handler crypto secs config now token peer)
    unfolding friend_add_handler
    friend_add-KeepsReply now peer =
        with_claims-Keeps P (verify_token crypto secs token config) (λ c.
          if-Keeps P (c.user_id == peer) (quiet_reply P (λ s. refl)) (
            query-KeepsReply P (add_friend now c.user_id peer)
              (k.add_friend-Keeps now c.user_id peer) (λ u. quiet_reply P (λ s. refl))
              (λ e. quiet_reply P (λ s. refl))))

    pub conversations-KeepsReply : KeepsReply P (conversations_handler crypto secs config token)
    unfolding conversations_handler
    conversations-KeepsReply = with_claims-Keeps P (verify_token crypto secs token config) (λ c.
        respond-Keeps P (get_conversations c.user_id) _ _ (get_conversations-Keeps P c.user_id))

    pub user_search-KeepsReply :
        (ilike : String → String → Bool) (q : String) (limit : Option ℤ)
        → KeepsReply P (user_search_handler crypto secs config ilike token q limit)
    unfolding user_search_handler
    user_search-KeepsReply ilike q limit =
        with_claims-Keeps P (verify_token crypto secs token config) (λ c.
          respond-Keeps P (search_users ilike q c.user_id (clamp_limit limit 20 50)) _ _
            (search_users-Keeps P ilike q c.user_id (clamp_limit limit 20 50)))

    pub group_create-KeepsReply :
        (now gid : ℕ) (name : String)
        → KeepsReply P (group_create_handler crypto secs config now gid token name)
    unfolding group_create_handler
    group_create-KeepsReply now gid name =
        with_claims-Keeps P (verify_token crypto secs token config) (λ c.
          if-Keeps P (same (trim name) "") (quiet_reply P (λ s. refl)) (
            query-KeepsReply P (create_group now gid (trim name) c.user_id)
              (k.create_group-Keeps now gid (trim name) c.user_id) (λ g. quiet_reply P (λ s. refl))
              (λ e. quiet_reply P (λ s. refl))))

    pub group_join-KeepsReply :
        (now gid : ℕ) → KeepsReply P (group_join_handler crypto secs config now token gid)
    unfolding group_join_handler
    group_join-KeepsReply now gid =
        with_claims-Keeps P (verify_token crypto secs token config) (λ c.
          query-KeepsReply P (join_group now gid c.user_id) (k.join_group-Keeps now gid c.user_id)
            (λ j. quiet_reply P (λ s. refl)) (λ e. quiet_reply P (λ s. refl)))

    pub group_leave-KeepsReply :
        (gid : ℕ) → KeepsReply P (group_leave_handler crypto secs config token gid)
    unfolding group_leave_handler
    group_leave-KeepsReply gid = with_claims-Keeps P (verify_token crypto secs token config) (λ c.
        query-KeepsReply P (leave_group gid c.user_id) (k.leave_group-Keeps gid c.user_id)
          (λ u. quiet_reply P (λ s. refl)) (λ e. quiet_reply P (λ s. refl)))

    pub group_list-KeepsReply : KeepsReply P (group_list_handler crypto secs config token)
    unfolding group_list_handler
    group_list-KeepsReply =
        with_claims-Keeps P (verify_token crypto secs token config)
          (λ c. respond-Keeps P (list_my_groups c.user_id) _ _ (list_my_groups-Keeps P c.user_id))

    pub group_search-KeepsReply :
        (ilike : String → String → Bool) (q : String) (limit : Option ℤ)
        → KeepsReply P (group_search_handler crypto secs config ilike token q limit)
    unfolding group_search_handler
    group_search-KeepsReply ilike q limit =
        with_claims-Keeps P (verify_token crypto secs token config) (λ c.
          respond-Keeps P (search_groups ilike q (clamp_limit limit 20 50)) _ _
            (search_groups-Keeps P ilike q (clamp_limit limit 20 50)))

    pub group_members-KeepsReply :
        (gid : ℕ) → KeepsReply P (group_members_handler crypto secs config token gid)
    unfolding group_members_handler
    group_members-KeepsReply gid =
        with_claims-Keeps P (verify_token crypto secs token config)
          (λ c. respond-Keeps P (list_group_members gid) _ _ (list_group_members-Keeps P gid))

    module _ {V : Type 0} (json : Json V) where
      tell_peer-pool :
          (uid peer : ℕ) (ids : List ℕ) (s : AppState)
          → (tell_peer crypto secs config json uid peer ids s).pool ≡ s.pool
      tell_peer-pool uid peer ids s = ground arith

      pub message_history-KeepsReply :
          (peer : ℕ) (before limit : Option ℤ)
          → KeepsReply P (message_history_handler crypto secs config json token peer before limit)
      unfolding message_history_handler
      message_history-KeepsReply peer before limit =
          with_claims-Keeps P (verify_token crypto secs token config) (λ c.
            query-KeepsReply P (get_chat_history c.user_id peer before (clamp_limit limit 50 100))
              (k.get_chat_history-Keeps c.user_id peer before (clamp_limit limit 50 100))
              (λ found. quiet_reply P (tell_peer-pool c.user_id peer found.1))
              (λ e. quiet_reply P (λ s. refl)))

      pub group_history-KeepsReply :
          (gid : ℕ) (before limit : Option ℤ)
          → KeepsReply P (group_history_handler crypto secs config json token gid before limit)
      unfolding group_history_handler
      group_history-KeepsReply gid before limit =
          with_claims-Keeps P (verify_token crypto secs token config) (λ c.
            query-KeepsReply P (get_group_history gid before (clamp_limit limit 50 100))
              (get_group_history-Keeps P gid before (clamp_limit limit 50 100))
              (λ items. record {
                keeps =
                    (mark_and_push-KeepsState P json gid c.user_id
                      (k.mark_group_read-Keeps gid c.user_id)).keeps;
              })
              (λ e. quiet_reply P (λ s. refl)))
