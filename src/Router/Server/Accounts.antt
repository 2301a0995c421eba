-- ===== src/Router/Server/Accounts.antt =====
-- The HTTP handlers of the accounts keep what the operations of src/dao.rs keep.
use myx_im.Base.{ℕ, String, ◌⊎◌, ◌||◌, inl, inr, Option-cases, Option, Bool-cases, same}
use myx_im.Base.Outcome.{Outcome, ok, err, state_of}
use myx_im.Model.{User}
use myx_im.Db.{Db}
use myx_im.Db.Statement.{Pool, DbError}
use myx_im.Jwt.{Config, Crypto, verify_token}
use myx_im.Service.{
  Response, register_user, login_user, logout_user, delete_user, authenticate, found, deleted,
  registered, logged_in, logged_out,
}
use myx_im.Dao.Users.{save_user, find_user_by_username}
use myx_im.Dao.Delete
use myx_im.Dao.Keeps.{DaoKeeps, find_user_by_username-Keeps}
use myx_im.Router.App.{AppState}
use myx_im.Router.Http.{
  user_register_handler, user_login_handler, user_logout_handler, user_delete_handler,
  finish_logout, finish_delete,
}
use myx_im.Router.Server.Keeps.{KeepsReply}

module _ (P : Db → Type 0) (k : DaoKeeps P) (crypto : Crypto) (secs : ℕ) (config : Config) where
  -- The account service, on the pool.
  authenticate_keeps :
      (username password : String) (p : Pool)
      → P p.db
      → P (authenticate crypto secs config username password p).1.db
  authenticate_keeps username password p h =
      elim (Bool-cases (same username "" || same password "")) [
        | inl e ↦ rw e h
        | inr e ↦ rw e (
            outcome (find_user_by_username username p) (find_user_by_username-Keeps P username p h))
      ]
    where
      outcome :
          (r : Outcome Pool DbError (Option User))
          → P (state_of r).db
          → P (found crypto secs config password r).1.db
      outcome (ok u q) v = v
      outcome (err e q) v = v

  registered_keeps :
      (r : Outcome Pool DbError ℕ) → P (state_of r).db → P (registered crypto secs config r).1.db
  registered_keeps (ok uid p) v = v
  registered_keeps (err e p) v = v

  pub user_register-KeepsReply :
      (now uid : ℕ) (username password : String)
      → KeepsReply P (user_register_handler crypto secs config now uid username password)
  unfolding user_register_handler register_user
  user_register-KeepsReply now uid username password = record {
    keeps = λ s h. elim (Option-cases (crypto.hash password)) [
      | inl e ↦ rw (e, register_user) h
      | inr (hash, e) ↦
          rw (e, register_user)
            (registered_keeps (save_user now uid username hash s.pool)
              (k.save_user-Keeps now uid username hash s.pool h))
    ];
  }

  logged_in_keeps :
      (r : (Response String ⊎ User) × Pool) → P r.1.db → P (logged_in crypto secs config r).1.db
  logged_in_keeps (inl refusal, p) v = v
  logged_in_keeps (inr u, p) v = v

  pub user_login-KeepsReply :
      (username password : String)
      → KeepsReply P (user_login_handler crypto secs config username password)
  unfolding user_login_handler login_user
  user_login-KeepsReply username password = record {
    keeps = λ s h. logged_in_keeps _ (authenticate_keeps username password s.pool h);
  }

  logout_keeps :
      (s : AppState) (r : (Response String ⊎ User) × Pool)
      → P r.1.db
      → P
          (finish_logout crypto secs config
            (logged_out crypto secs config r).0
            (record s { pool = (logged_out crypto secs config r).1 })).1.pool.db
  logout_keeps s (inl refusal, p) v = v
  logout_keeps s (inr u, p) v = v

  pub user_logout-KeepsReply :
      (username password : String)
      → KeepsReply P (user_logout_handler crypto secs config username password)
  unfolding user_logout_handler logout_user
  user_logout-KeepsReply username password = record {
    keeps = λ s h. logout_keeps s _ (authenticate_keeps username password s.pool h);
  }

  deleted_keeps :
      (s : AppState) (uid : ℕ) (r : Outcome Pool DbError (Unit {0}))
      → P (state_of r).db
      → P
          (finish_delete crypto secs config
            (deleted crypto secs config uid r).0
            (record s { pool = (deleted crypto secs config uid r).1 })).1.pool.db
  deleted_keeps s uid (ok u p) v = v
  deleted_keeps s uid (err e p) v = v

  pub user_delete-KeepsReply :
      (token : String) → KeepsReply P (user_delete_handler crypto secs config token)
  unfolding user_delete_handler delete_user
  user_delete-KeepsReply token = record {
    keeps = λ s h. elim (Option-cases (verify_token crypto secs token config)) [
      | inl e ↦ rw e h
      | inr (c, e) ↦ rw e (
          deleted_keeps s c.user_id (Delete.delete_user c.user_id s.pool)
            (k.delete_user-Keeps c.user_id s.pool h))
    ];
  }
