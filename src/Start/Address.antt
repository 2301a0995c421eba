-- ===== src/Start/Address.antt =====
-- src/main.rs: the database that the server uses, and the one that its configuration names.
use myx_im.Base.{◌≡◌, refl, String, Bool, true, Option, none, some}
use myx_im.Base.Int.{ℤ}
use myx_im.Db.Statement.{Pool}
use myx_im.State.{new}
use myx_im.Jwt.Load.{load, parse_i64}
use myx_im.Start.{Environment, serving, default_url, main}

module _ (dotenv : Environment → Environment) (connect : String → Option Pool)
    (listens : String → Bool) (env : Environment) (pool : Pool) (url secret expire : String)
    (lifetime : ℤ) (named : dotenv env "DATABASE_URL" ≡ some url)
    (keyed : dotenv env "JWT_SECRET" ≡ some secret) (timed : dotenv env "JWT_EXPIRE" ≡ some expire)
    (parses : parse_i64 expire ≡ some lifetime) (free : listens "0.0.0.0:3000" ≡ true) where
  -- Where DATABASE_URL is set in the file .env only, the server starts on the built-in address all the
  -- same, if that has a database, and not on the one of the file, which is in its configuration:
  -- main reads the variable before Config::load reads the file.
  pub main-default_url :
      env "DATABASE_URL" ≡ none
      → connect default_url ≡ some pool
      → main dotenv connect listens env
        ≡ serving
            (record { pool = pool; online = new })
            (record { db_url = url; jwt_secret = secret; jwt_expire = lifetime })
  unfolding main load
  main-default_url unset c = rw (unset, c, main, load, named, keyed, timed, parses, free) refl
