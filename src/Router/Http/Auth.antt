-- ===== src/Router/Http/Auth.antt =====
-- src/router.rs: a request with a token that is not accepted.
use myx_im.Base.{ℕ, ◌≡◌, String, Bool, Option, none}
use myx_im.Base.Int.{ℤ}
use myx_im.Jwt.{Config, Crypto, verify_token}
use myx_im.Service.{delete_user, refuse}
use myx_im.Router.App.{AppState, Json}
use myx_im.Router.Http.{
  Handler, friend_add_handler, friend_list_handler, conversations_handler, user_search_handler,
  group_create_handler, group_join_handler, group_leave_handler, group_list_handler,
  group_search_handler, group_members_handler, message_history_handler, group_history_handler,
  user_delete_handler,
}

-- The answer 401, and the state as it was.
abbrev IsRefused : {T : Type 0} → Handler T → AppState → Type 0
IsRefused h s = h s ≡ (refuse 401 "invalid token", s)

-- Every handler that takes a token answers 401 and changes nothing where the token is not accepted:
-- neither the database nor any connection.
invalid_token-IsRefused :
    {V : Type 0} (json : Json V) (crypto : Crypto) (secs now peer gid : ℕ) (config : Config)
    (matches : String → String → Bool) (token name q : String) (before limit : Option ℤ)
    (s : AppState)
    → verify_token crypto secs token config ≡ none
    → IsRefused (friend_add_handler crypto secs config now token peer) s
      × IsRefused (friend_list_handler crypto secs config matches token) s
      × IsRefused (conversations_handler crypto secs config token) s
      × IsRefused (user_search_handler crypto secs config matches token q limit) s
      × IsRefused (group_create_handler crypto secs config now gid token name) s
      × IsRefused (group_join_handler crypto secs config now token gid) s
      × IsRefused (group_leave_handler crypto secs config token gid) s
      × IsRefused (group_list_handler crypto secs config token) s
      × IsRefused (group_search_handler crypto secs config matches token q limit) s
      × IsRefused (group_members_handler crypto secs config token gid) s
      × IsRefused (message_history_handler crypto secs config json token peer before limit) s
      × IsRefused (group_history_handler crypto secs config json token gid before limit) s
      × IsRefused (user_delete_handler crypto secs config token) s
unfolding friend_add_handler friend_list_handler conversations_handler user_search_handler
    group_create_handler group_join_handler group_leave_handler group_list_handler
    group_search_handler group_members_handler message_history_handler group_history_handler
    user_delete_handler delete_user
invalid_token-IsRefused json crypto secs now peer gid config matches token name q before limit s e =
    (rw e, rw e, rw e, rw e, rw e, rw e, rw e, rw e, rw e, rw e, rw e, rw e, rw e)
