-- ===== src/Router/Http/Refusals/Accounts.antt =====
-- src/router.rs: the handlers of the accounts that answer with a client error change nothing.
use myx_im.Base.{ℕ, ◌≡◌, refl, ◌∙◌, String, true, ◌⊎◌, inl, inr, arith, Option-cases}
use myx_im.Base.Outcome.{Outcome, ok, err}
use myx_im.Model.{User}
use myx_im.Db.{Db}
use myx_im.Db.Statement.{Pool, DbError, healthy}
use myx_im.Jwt.{Config, Crypto, create_token}
use myx_im.Service.{
  Response, register_user, login_user, logout_user, authenticate, registered, logged_in, logged_out,
}
use myx_im.Dao.Users.{save_user, find_user_by_username}
use myx_im.State.{Online}
use myx_im.Router.App.{AppState}
use myx_im.Router.Http.{
  user_register_handler, user_login_handler, user_logout_handler, finish_logout,
}
use myx_im.Router.Http.Refusals.{is_client_error, Spares}

module _ (crypto : Crypto) (secs : ℕ) (config : Config) (db : Db) (online : Online) where
  abbrev before : AppState
  before = record { pool = healthy db; online = online }

  registered-Spares :
      (r : Outcome Pool DbError ℕ)
      → ((x : DbError) (p : Pool) → r ≡ err x p → p ≡ healthy db)
      → is_client_error (registered crypto secs config r).0.status ≡ true
      → (registered crypto secs config r).1 ≡ healthy db
  registered-Spares (err x p) h k = h x p refl
  registered-Spares (ok uid p) h k = elim (Option-cases (create_token crypto secs uid config)) [
    | inl e ↦ absurd (ground (arith, e))
    | inr (token, e) ↦ absurd (ground (arith, e))
  ]

  save_user_err :
      (now uid : ℕ) (name hash : String) (x : DbError) (p : Pool)
      → save_user now uid name hash (healthy db) ≡ err x p
      → p ≡ healthy db
  unfolding save_user
  save_user_err now uid name hash x p e = ground arith

  pub user_register-Spares :
      (now uid : ℕ) (name password : String)
      → Spares (user_register_handler crypto secs config now uid name password) before
  unfolding user_register_handler register_user
  user_register-Spares now uid name password = elim (Option-cases (crypto.hash password)) [
    | inl e ↦ rw (e, register_user) (λ k. absurd (ground arith))
    | inr (hash, e) ↦
        rw (e, register_user)
          (registered-Spares (save_user now uid name hash (healthy db))
            (save_user_err now uid name hash))
  ]

  -- A login reads the tables only.
  authenticate-pool :
      (name password : String)
      → (authenticate crypto secs config name password (healthy db)).1 ≡ healthy db
  unfolding find_user_by_username
  authenticate-pool name password = ground arith

  logged_in-pool : (r : (Response String ⊎ User) × Pool) → (logged_in crypto secs config r).1 ≡ r.1
  logged_in-pool (inl refusal, p) = refl
  logged_in-pool (inr u, p) = refl

  pub user_login-Spares :
      (name password : String) → Spares (user_login_handler crypto secs config name password) before
  unfolding user_login_handler login_user
  user_login-Spares name password k =
      logged_in-pool (authenticate crypto secs config name password (healthy db))
      ∙ authenticate-pool name password

  logged_out-pool :
      (r : (Response String ⊎ User) × Pool)
      → let (x, p) = logged_out crypto secs config r in
        (finish_logout crypto secs config x (record before { pool = p })).1.pool ≡ r.1
  logged_out-pool (inl refusal, p) = refl
  logged_out-pool (inr u, p) = refl

  pub user_logout-Spares :
      (name password : String)
      → Spares (user_logout_handler crypto secs config name password) before
  unfolding user_logout_handler logout_user
  user_logout-Spares name password k =
      logged_out-pool (authenticate crypto secs config name password (healthy db))
      ∙ authenticate-pool name password
