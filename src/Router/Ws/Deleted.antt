-- ===== src/Router/Ws/Deleted.antt =====
-- src/router.rs: the open connection of an account that has been deleted.
use myx_im.Base.{ℕ, ◌≡◌, String, true, not, ◌&&◌, none, some, any, ◌==◌, same}
use myx_im.Base.Outcome.{ok}
use myx_im.Db.{Db}
use myx_im.Db.Statement.{healthy}
use myx_im.Model.Wire.{PrivateChatReq}
use myx_im.Jwt.{Config, Crypto, Claims, verify_token}
use myx_im.Service.{delete_user}
use myx_im.State.{Online, send_to_user}
use myx_im.Dao.Delete
use myx_im.Dao.Delete.NoTrace.{NoTrace, delete_user-NoTrace}
use myx_im.Router.App.{Json, parsed}
use myx_im.Router.Http.{user_delete_handler, account_deleted}
use myx_im.Router.Ws.{private_chat}
use myx_im.Router.Ws.Private.{private_chat-kept}

module _ (crypto : Crypto) (secs : ℕ) (config : Config) (token : String) (claims : Claims) (db : Db)
    (online : Online) (valid : verify_token crypto secs token config ≡ some claims) where
  -- What user_delete_handler leaves where no statement fails.
  handled :
      (db' : Db)
      → Delete.delete_user claims.user_id (healthy db) ≡ ok tt (healthy db')
      → (user_delete_handler crypto secs config token
          (record { pool = healthy db; online = online })).1
        ≡ record {
          pool = healthy db';
          online = (send_to_user claims.user_id account_deleted online).1;
        }
  unfolding user_delete_handler delete_user
  handled db' e = rw (valid, e)

  -- After user_delete_handler has deleted an account no table mentions it, but a private message on a
  -- connection that the account has open is stored all the same, as sent by it. The token is
  -- accepted, no statement fails, and the client gave no id.
  pub user_delete-private_chat :
      {V : Type 0} (json : Json V) (tx now send_time seq : ℕ) (payload : V) (req : PrivateChatReq)
      → json.private_chat_req payload ≡ parsed req
      → req.client_msg_id ≡ none
      → let after =
          (user_delete_handler crypto secs config token
            (record { pool = healthy db; online = online })).1 in
        NoTrace claims.user_id after.pool.db
        × (any
              (λ m.
                m.from_uid == claims.user_id
                && m.to_uid == req.to_uid
                && not m.seen
                && same m.content req.content)
              (private_chat json claims.user_id tx now send_time seq payload
                after).pool.db.chat_messages
            ≡ true)
  user_delete-private_chat json tx now send_time seq payload req p c =
      let (db', e, gone) = delete_user-NoTrace claims.user_id db in
      let there = (send_to_user claims.user_id account_deleted online).1 in
      rw (handled db' e)
        (gone, private_chat-kept json claims.user_id tx now send_time seq payload req db' there p c)
