-- ===== src/Service.antt =====
-- src/service.rs: registration, login, logout and the deletion of an account, as the answers that
-- they give and the state of the pool afterwards.
pub mod Auth
use Prim.Native.String
use text.Mathlib.Text.{find?}
use myx_im.Base.{
  ℕ, String, Bool, false, ◌||◌, ◌⊎◌, inl, inr, Option, none, some, if◌then◌else◌, is_some, same,
}
use myx_im.Base.Outcome.{Outcome, ok, err}
use myx_im.Model.{Uuid, Time, User, Res, success, error}
use myx_im.Db.Statement.{
  Pool, DbError, connection, unique_violation, foreign_key_violation, value_too_long,
  negative_limit, row_not_found, anyhow,
}
use myx_im.Dao.Users.{save_user, find_user_by_username}
use myx_im.Dao.Delete
use myx_im.Jwt.{Config, Crypto, Claims, create_token, verify_token}

-- `(StatusCode, Json<Res<T>>)`
pub record Response (T : Type 0) : Type 0 where
  pub status : ℕ
  pub res : Res T

abbrev pub answer : {T : Type 0} → T → String → Response T
answer d msg = record { status = 200; res = success d msg }

abbrev pub refuse : {T : Type 0} → ℕ → String → Response T
refuse code msg = record { status = code; res = error code msg }

-- `{e}` of an error, as the crates print it.
abbrev pub error_text : DbError → String
error_text (connection msg) = msg
error_text (unique_violation name) =
    String.◌++◌ "error returned from database: duplicate key value violates unique constraint " name
error_text (foreign_key_violation name) =
    String.◌++◌ "error returned from database: insert or update violates foreign key constraint "
      name
error_text (value_too_long n) =
    "error returned from database: value too long for type character varying"
error_text negative_limit = "error returned from database: LIMIT must not be negative"
error_text row_not_found = "no rows returned by a query that expected to return at least one row"
error_text (anyhow msg) = msg

abbrev pub contains : String → String → Bool
contains text part = is_some (find? text part)

module _ (crypto : Crypto) (secs : ℕ) (config : Config) where
  abbrev pub token_answer : Option String → String → String → Response String
  token_answer none failure msg = refuse 500 failure
  token_answer (some token) failure msg = answer token msg

  abbrev pub registered : Outcome Pool DbError Uuid → Response String × Pool
  registered (ok uid p) = (
    token_answer (create_token crypto secs uid config) "failed to create token" "user created",
    p,
  )
  registered (err e p) = (
    (if contains (error_text e) "unique constraint"
        then refuse 409 "user already exists"
        else refuse 500 "register failed"),
    p,
  )

  -- `uid` is the UUID that `Uuid::new_v4` returns.
  unfoldable pub register_user : Time → Uuid → String → String → Pool → Response String × Pool
  register_user now uid username password p = elim (crypto.hash password) [
    | none ↦ (refuse 500 "failed to hash password", p)
    | some hash ↦ registered (save_user now uid username hash p)
  ]

  -- The account of a username and password, or the refusal, as login_user and logout_user find it.
  abbrev pub is_verified : Option Bool → Bool
  is_verified (some b) = b
  is_verified none = false

  abbrev pub check_password : String → Option User → Response String ⊎ User
  check_password password none = inl (refuse 401 "invalid username or password")
  check_password password (some u) =
      if is_verified (crypto.verify password u.password_hash)
      then inr u
      else inl (refuse 401 "invalid username or password")

  abbrev pub found : String → Outcome Pool DbError (Option User) → (Response String ⊎ User) × Pool
  found password (ok u p) = (check_password password u, p)
  found password (err e p) = (inl (refuse 500 "internal error"), p)

  abbrev pub authenticate : String → String → Pool → (Response String ⊎ User) × Pool
  authenticate username password p =
      if same username "" || same password ""
      then (inl (refuse 400 "user name or password is empty"), p)
      else found password (find_user_by_username username p)

  abbrev pub logged_in : (Response String ⊎ User) × Pool → Response String × Pool
  logged_in (inl refusal, p) = (refusal, p)
  logged_in (inr u, p) = (
    token_answer (create_token crypto secs u.id config) "token generation failed" "login success",
    p,
  )

  unfoldable pub login_user : String → String → Pool → Response String × Pool
  login_user username password p = logged_in (authenticate username password p)

  abbrev pub logged_out : (Response String ⊎ User) × Pool → (Response String ⊎ Uuid) × Pool
  logged_out (inl refusal, p) = (inl refusal, p)
  logged_out (inr u, p) = (inr u.id, p)

  unfoldable pub logout_user : String → String → Pool → (Response String ⊎ Uuid) × Pool
  logout_user username password p = logged_out (authenticate username password p)

  abbrev pub deleted : Uuid → Outcome Pool DbError (Unit {0}) → (Response String ⊎ Uuid) × Pool
  deleted uid (ok _ p) = (inr uid, p)
  deleted uid (err e p) = (inl (refuse 500 "failed to delete account"), p)

  abbrev pub delete_of : Option Claims → Pool → (Response String ⊎ Uuid) × Pool
  delete_of none p = (inl (refuse 401 "invalid token"), p)
  delete_of (some c) p = deleted c.user_id (Delete.delete_user c.user_id p)

  unfoldable pub delete_user : String → Pool → (Response String ⊎ Uuid) × Pool
  delete_user token p = delete_of (verify_token crypto secs token config) p
