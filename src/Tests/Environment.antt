-- ===== src/Tests/Environment.antt =====
-- The configuration that Config::load reads, and a start of the program with it.
use myx_im.Base.{◌≡◌, refl, true, String, Option, none, some, same, if◌then◌else◌}
use myx_im.Base.Int.{pos, negsuc}
use myx_im.Jwt.Load.{load, parse_i64}
use myx_im.Db.Statement.{Pool, healthy}
use myx_im.State.{new}
use myx_im.Start.{Environment, serving, default_url, main}
use myx_im.Start.Address.{main-default_url}
use myx_im.Tests.{config, db}

abbrev environment : String → Option String
environment name =
    if same name "DATABASE_URL"
    then some "postgres"
    else if same name "JWT_SECRET"
    then some "key"
    else if same name "JWT_EXPIRE"
    then some "+3600"
    else none

loaded : load environment ≡ some config
unfolding load parse_i64
loaded = refl

-- A variable that is missing.
unset : load (λ name. if same name "JWT_EXPIRE" then none else environment name) ≡ none
unfolding load parse_i64
unset = refl

negative_time : parse_i64 "-60" ≡ some (negsuc 59)
unfolding parse_i64
negative_time = refl

out_of_range : parse_i64 "9223372036854775808" ≡ none
unfolding parse_i64
out_of_range = refl

no_number : parse_i64 "1h" ≡ none
unfolding parse_i64
no_number = refl

-- The file .env has what `environment` has, and no variable is set.
abbrev from_file : Environment → Environment
from_file env name = elim (env name) [ none ↦ environment name | some v ↦ some v ]

-- The only database is that of the built-in address.
abbrev only_default : String → Option Pool
only_default url = if same url default_url then some (healthy db) else none

main-default_url_example :
    main from_file only_default (λ address. true) (λ name. none)
    ≡ serving (record { pool = healthy db; online = new }) config
unfolding parse_i64
main-default_url_example =
    main-default_url from_file only_default (λ address. true) (λ name. none) (healthy db) "postgres"
      "key" "+3600" (pos 3600) refl refl refl refl refl refl refl
