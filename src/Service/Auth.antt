-- ===== src/Service/Auth.antt =====
-- src/service.rs: who is let in, and with which token.
use text.Mathlib.TextPositions.{eq_refl}
use myx_im.Base.{
  ◌||◌, ℕ, ◌≡◌, String, true, false, some, arith, any, find?, inl, inr, Bool-cases, Option-cases,
  same,
}
use myx_im.Model.{User}
use myx_im.Db.{Db}
use myx_im.Db.Statement.{healthy}
use myx_im.Dao.Users.{varchar, has_user, named, save_user, find_user_by_username}
use myx_im.Jwt.{Config, Crypto, create_token}
use myx_im.Service.{answer, register_user, login_user}

-- A user's row is what the password is checked against.
pub record IsAccount (crypto : Crypto) (username password : String) (db : Db) (u : User)
    : Type 0 where
  pub stored : find? (named username) db.users ≡ some u
  pub verified : crypto.verify password u.password_hash ≡ some true

module _ (crypto : Crypto) (secs : ℕ) (config : Config) (username password : String) (db : Db) where
  -- A login answers 200 only to the right password of a stored account, and then its token is that
  -- of this account and of no other. No statement fails.
  pub login_user_sound :
      (login_user crypto secs config username password (healthy db)).0.status ≡ 200
      → (u : User) × (token : String) × IsAccount crypto username password db u
        × (create_token crypto secs u.id config ≡ some token)
        × (login_user crypto secs config username password (healthy db)
            ≡ (answer token "login success", healthy db))
  unfolding login_user find_user_by_username
  login_user_sound h = elim (Bool-cases (same username "" || same password "")) [
    | inl e ↦ absurd (ground (arith, e))
    | inr e ↦ elim (Option-cases (find? (named username) db.users)) [
      | inl n ↦ absurd (ground (arith, e, n))
      | inr (u, f) ↦ elim (Option-cases (crypto.verify password u.password_hash)) [
        | inl n ↦ absurd (ground (arith, e, f, n))
        | inr (b, v) ↦ elim (Option-cases (create_token crypto secs u.id config)) [
          | inl n ↦ absurd (ground (arith, e, f, v, n))
          | inr (token, t) ↦ (
            u,
            token,
            record { stored = f; verified = ground (arith, e, f, v) },
            t,
            ground (arith, e, f, v, t),
          )
        ]
      ]
    ]
  ]

-- What bcrypt promises: the hash of a password verifies it.
pub record IsSoundCrypto (crypto : Crypto) : Type 0 where
  pub verify-hash :
      (password hash : String)
      → crypto.hash password ≡ some hash
      → crypto.verify password hash ≡ some true

-- Somebody who registers with a new name of at most 20 characters can log in with the same name and
-- password, and gets a token for the new account. The name and the password are not empty, the
-- UUID is new, and the crates do not fail.
pub login-register :
    (crypto : Crypto) (secs now uid : ℕ) (config : Config) (username password hash token : String)
    (db : Db)
    → IsSoundCrypto crypto
    → crypto.hash password ≡ some hash
    → create_token crypto secs uid config ≡ some token
    → (same username "" || same password "") ≡ false
    → varchar 20 username ≡ some username
    → has_user uid db.users ≡ false
    → any (named username) db.users ≡ false
    → let registered = register_user crypto secs config now uid username password (healthy db) in
      (registered.0 ≡ answer token "user created")
      × (login_user crypto secs config username password registered.1
          ≡ (answer token "login success", registered.1))
unfolding register_user login_user save_user find_user_by_username
login-register crypto secs now uid config username password hash token db v h t filled short fresh
      free =
    ground (arith, v.verify-hash password hash h, eq_refl username)
