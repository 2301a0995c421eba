-- ===== src/Dao/Users.antt =====
-- src/dao.rs: accounts (im_users).
use Prim.Native.Char.{Char, code}
use Prim.Native.String
use myx_im.Base.{
  ℕ, zero, suc, String, Bool, ◌&&◌, not, Option, none, some, List, ◌∷◌, map, filter, find?, any,
  ◌==◌, if◌then◌else◌, same,
}
use myx_im.Base.Int.{ℤ}
use myx_im.Base.Outcome.{ok, err}
use myx_im.Model.{Uuid, Time, User, UserSearchItem}
use myx_im.Db.Statement.{Sql, Dao, statement, unique_violation, value_too_long}
use myx_im.Dao.Select.{limited}

abbrev prefix_char : Char → Option String → Option String
prefix_char c none = none
prefix_char c (some s) = some (String.◌∷◌ c s)

-- What a column `VARCHAR(n)` stores of a text: excess characters are refused, except spaces, which
-- are cut off.
abbrev pub varchar : ℕ → String → Option String
varchar n String.[] = some String.[]
varchar zero (String.◌∷◌ c s) = let rest = varchar zero s in if code c == b' ' then rest else none
varchar (suc n) (String.◌∷◌ c s) = prefix_char c (varchar n s)

abbrev pub has_user : Uuid → List User → Bool
has_user uid = any (λ u. u.id == uid)

abbrev pub named : String → User → Bool
named name u = same u.username name

abbrev new_user : Time → Uuid → String → String → User
new_user now uid name hash = record {
  id = uid;
  username = name;
  password_hash = hash;
  created_at = some now;
}

abbrev insert_stored : Time → Uuid → Option String → String → Sql Uuid
insert_stored now uid none hash db = err (value_too_long 20) db
insert_stored now uid (some name) hash db =
    if has_user uid db.users
    then err (unique_violation "im_users_pkey") db
    else if any (named name) db.users
    then err (unique_violation "im_users_username_key") db
    else ok uid (record db { users = new_user now uid name hash ∷ db.users })

abbrev pub insert_user : Time → Uuid → String → String → Sql Uuid
insert_user now uid name hash = insert_stored now uid (varchar 20 name) hash

unfoldable pub save_user : Time → Uuid → String → String → Dao Uuid
save_user now uid name hash = statement (insert_user now uid name hash)

abbrev pub select_user : String → Sql (Option User)
select_user name db = ok (find? (named name) db.users) db

unfoldable pub find_user_by_username : String → Dao (Option User)
find_user_by_username name = statement (select_user name)

abbrev search_item : User → UserSearchItem
search_item u = record { id = u.id; username = u.username }

-- `format!("%{}%", keyword)`
abbrev pub contains_pattern : String → String
contains_pattern keyword = String.◌++◌ "%" (String.◌++◌ keyword "%")

-- `ilike` is the operator of PostgreSQL, the text first.
unfoldable pub search_users :
    (String → String → Bool) → String → Uuid → ℤ → Dao (List UserSearchItem)
search_users ilike keyword exclude_uid limit = statement (λ db.
    limited limit
      (map search_item (
        filter (λ u. ilike u.username (contains_pattern keyword) && not (u.id == exclude_uid))
          db.users))
      db)
