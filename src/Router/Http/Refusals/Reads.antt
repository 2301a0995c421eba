-- ===== src/Router/Http/Refusals/Reads.antt =====
-- src/router.rs: the handlers whose only client error is a token that is not accepted.
use myx_im.Base.{ℕ, refl, String, Bool, Option}
use myx_im.Base.Int.{ℤ}
use myx_im.Jwt.{Config, Crypto, verify_token}
use myx_im.Dao.Users.{search_users}
use myx_im.Dao.Chat.{get_chat_history, get_conversations}
use myx_im.Dao.Friends.{list_friends}
use myx_im.Dao.Groups.{leave_group, list_my_groups, search_groups, list_group_members}
use myx_im.Dao.GroupMessages.{get_group_history}
use myx_im.Router.App.{AppState, Json}
use myx_im.Router.Http.{
  clamp_limit, friend_list_handler, conversations_handler, user_search_handler, group_leave_handler,
  group_list_handler, group_search_handler, group_members_handler, message_history_handler,
  group_history_handler,
}
use myx_im.Router.Http.Refusals.{Spares, claims-Spares, query-Spares}

module _ {V : Type 0} (json : Json V) (crypto : Crypto) (secs : ℕ) (config : Config)
    (token : String) (s : AppState) where
  pub friend_list-Spares :
      (collates : String → String → Bool)
      → Spares (friend_list_handler crypto secs config collates token) s
  unfolding friend_list_handler
  friend_list-Spares collates =
      claims-Spares (verify_token crypto secs token config) _ s
        λ c. query-Spares (list_friends collates c.user_id) _ _ s (λ a t. refl) (λ x t. refl)

  pub conversations-Spares : Spares (conversations_handler crypto secs config token) s
  unfolding conversations_handler
  conversations-Spares =
      claims-Spares (verify_token crypto secs token config) _ s
        λ c. query-Spares (get_conversations c.user_id) _ _ s (λ a t. refl) (λ x t. refl)

  pub user_search-Spares :
      (ilike : String → String → Bool) (q : String) (limit : Option ℤ)
      → Spares (user_search_handler crypto secs config ilike token q limit) s
  unfolding user_search_handler
  user_search-Spares ilike q limit = claims-Spares (verify_token crypto secs token config) _ s λ c.
      query-Spares (search_users ilike q c.user_id (clamp_limit limit 20 50)) _ _ s (λ a t. refl)
        (λ x t. refl)

  pub group_leave-Spares : (gid : ℕ) → Spares (group_leave_handler crypto secs config token gid) s
  unfolding group_leave_handler
  group_leave-Spares gid =
      claims-Spares (verify_token crypto secs token config) _ s
        λ c. query-Spares (leave_group gid c.user_id) _ _ s (λ a t. refl) (λ x t. refl)

  pub group_list-Spares : Spares (group_list_handler crypto secs config token) s
  unfolding group_list_handler
  group_list-Spares =
      claims-Spares (verify_token crypto secs token config) _ s
        λ c. query-Spares (list_my_groups c.user_id) _ _ s (λ a t. refl) (λ x t. refl)

  pub group_search-Spares :
      (ilike : String → String → Bool) (q : String) (limit : Option ℤ)
      → Spares (group_search_handler crypto secs config ilike token q limit) s
  unfolding group_search_handler
  group_search-Spares ilike q limit = claims-Spares (verify_token crypto secs token config) _ s λ c.
      query-Spares (search_groups ilike q (clamp_limit limit 20 50)) _ _ s (λ a t. refl)
        (λ x t. refl)

  pub group_members-Spares :
      (gid : ℕ) → Spares (group_members_handler crypto secs config token gid) s
  unfolding group_members_handler
  group_members-Spares gid =
      claims-Spares (verify_token crypto secs token config) _ s
        λ c. query-Spares (list_group_members gid) _ _ s (λ a t. refl) (λ x t. refl)

  pub message_history-Spares :
      (peer : ℕ) (cursor limit : Option ℤ)
      → Spares (message_history_handler crypto secs config json token peer cursor limit) s
  unfolding message_history_handler
  message_history-Spares peer cursor limit =
      claims-Spares (verify_token crypto secs token config) _ s λ c.
        query-Spares (get_chat_history c.user_id peer cursor (clamp_limit limit 50 100)) _ _ s
          (λ a t. refl) (λ x t. refl)

  pub group_history-Spares :
      (gid : ℕ) (cursor limit : Option ℤ)
      → Spares (group_history_handler crypto secs config json token gid cursor limit) s
  unfolding group_history_handler
  group_history-Spares gid cursor limit =
      claims-Spares (verify_token crypto secs token config) _ s λ c.
        query-Spares (get_group_history gid cursor (clamp_limit limit 50 100)) _ _ s (λ a t. refl)
          (λ x t. refl)
