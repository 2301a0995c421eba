-- ===== src/Jwt/Load.antt =====
-- src/config.rs, Config::load. The environment, with what the crate dotenv has added to it, is an
-- argument: a variable is `none` where it is missing or is no Unicode. A panic is `none`.
use Prim.Native.Char.{code}
use myx_im.Base.{
  ℕ, ◌+◌, ◌-◌, ◌*◌, zero, suc, String, ◌&&◌, Option, none, some, leb, ◌==◌, if◌then◌else◌,
}
use myx_im.Base.Int.{ℤ, pos, negsuc}
use myx_im.Jwt.{Config}

-- The digits of a number, after those that make up `n`.
abbrev pub parse_digits : ℕ → String → Option ℕ
parse_digits n String.[] = some n
parse_digits n (String.◌∷◌ c s) =
    let rest = parse_digits (n * 10 + (code c - 48)) s in
    if leb 48 (code c) && leb (code c) 57 then rest else none

-- One digit at least.
abbrev pub parse_number : String → Option ℕ
parse_number String.[] = none
parse_number (String.◌∷◌ c s) = parse_digits 0 (String.◌∷◌ c s)

abbrev pub positive : Option ℕ → Option ℤ
positive none = none
positive (some n) = if leb n 9223372036854775807 then some (pos n) else none

abbrev pub negative : Option ℕ → Option ℤ
negative none = none
negative (some zero) = some (pos 0)
negative (some (suc n)) = if leb n 9223372036854775807 then some (negsuc n) else none

-- `str::parse::<i64>`
unfoldable pub parse_i64 : String → Option ℤ
parse_i64 String.[] = none
parse_i64 (String.◌∷◌ c s) =
    if code c == b'+'
    then positive (parse_number s)
    else if code c == b'-'
    then negative (parse_number s)
    else positive (parse_number (String.◌∷◌ c s))

abbrev with_expire : String → String → Option ℤ → Option Config
with_expire db_url secret none = none
with_expire db_url secret (some expire) =
    some (record { db_url = db_url; jwt_secret = secret; jwt_expire = expire })

abbrev parsed_expire : Option String → Option ℤ
parsed_expire none = none
parsed_expire (some text) = parse_i64 text

unfoldable pub load : (String → Option String) → Option Config
load env = elim (env "DATABASE_URL") [
  | none ↦ none
  | some db_url ↦ elim (env "JWT_SECRET") [
    | none ↦ none
    | some secret ↦ with_expire db_url secret (parsed_expire (env "JWT_EXPIRE"))
  ]
]
