-- ===== src/Tests/Accounts.antt =====
-- Registration and login at work.
use myx_im.Base.{◌≡◌, refl, String, some, arith}
use text.Mathlib.TextPositions.{eq_refl}
use myx_im.Base.{eq_iff}
use myx_im.Dao.Users.{find_user_by_username}
use myx_im.Db.Statement.{healthy}
use myx_im.Jwt.{create_token}
use myx_im.Model.{User}
use myx_im.Service.{register_user, login_user, answer}
use myx_im.Service.Auth.{IsAccount, IsSoundCrypto, login-register, login_user_sound}
use myx_im.Tests.{db, crypto, config}

crypto-IsSoundCrypto : IsSoundCrypto crypto
crypto-IsSoundCrypto = record { verify-hash = λ p h e. ground (arith, eq_iff p h, eq_refl p) }

login_user_sound_example :
    (u : User) × (token : String) × IsAccount crypto "alice" "secret" db u
    × (create_token crypto 0 u.id config ≡ some token)
    × (login_user crypto 0 config "alice" "secret" (healthy db)
        ≡ (answer token "login success", healthy db))
unfolding login_user find_user_by_username create_token
login_user_sound_example = login_user_sound crypto 0 config "alice" "secret" db refl

login-register_example :
    let registered = register_user crypto 0 config 0 5 "erin" "secret" (healthy db) in
    (registered.0 ≡ answer "token" "user created")
    × (login_user crypto 0 config "erin" "secret" registered.1
        ≡ (answer "token" "login success", registered.1))
unfolding create_token
login-register_example =
    login-register crypto 0 0 5 config "erin" "secret" "secret" "token" db crypto-IsSoundCrypto refl
      refl refl refl refl refl
