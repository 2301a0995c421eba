-- ===== src/Jwt.antt =====
-- src/jwt.rs and src/config.rs. The crates jsonwebtoken and bcrypt are a parameter.
pub mod Load
use myx_im.Base.{ℕ, String, Bool, Option}
use myx_im.Base.Int.{ℤ, add_ℤ}
use myx_im.Model.{Uuid}

pub record Config : Type 0 where
  pub db_url : String
  pub jwt_secret : String
  -- In seconds.
  pub jwt_expire : ℤ

-- Times are in seconds.
pub record Claims : Type 0 where
  pub user_id : Uuid
  pub exp : ℤ
  pub iat : ℕ

-- `encode` and `decode` take the secret first; `decode` also the time, by which it refuses a token
-- that has expired. `hash` and `verify` are bcrypt's; `none` is an error of the crate.
pub record Crypto : Type 0 where
  pub encode : String → Claims → Option String
  pub decode : String → ℕ → String → Option Claims
  pub hash : String → Option String
  pub verify : String → String → Option Bool

unfoldable pub create_token : Crypto → ℕ → Uuid → Config → Option String
create_token crypto now uid config =
    crypto.encode config.jwt_secret
      (record { user_id = uid; exp = add_ℤ now config.jwt_expire; iat = now })

unfoldable pub verify_token : Crypto → ℕ → String → Config → Option Claims
verify_token crypto now token config = crypto.decode config.jwt_secret now token
