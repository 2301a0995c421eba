-- ===== src/Dao/Select.antt =====
-- The clauses that the statements of src/dao.rs share.
use myx_im.Base.{
  ℕ, String, ◌+◌, ◌*◌, ◌/◌, Bool, false, Option, none, some, List, take, ltb, find?, ◌==◌, same,
}
use myx_im.Base.Int.{ℤ, pos, negsuc}
use myx_im.Base.Outcome.{ok, err}
use myx_im.Model.{Uuid, Time, User}
use myx_im.Db.Statement.{Sql, negative_limit}

-- `LIMIT $n`, which the database refuses for a negative number.
abbrev pub limited : {A : Type 0} → ℤ → List A → Sql (List A)
limited (pos n) rows db = ok (take n rows) db
limited (negsuc n) rows db = err negative_limit db

-- `id < COALESCE($n::bigint, 9223372036854775807)`
abbrev pub before_cursor : ℕ → Option ℤ → Bool
before_cursor id none = ltb id 9223372036854775807
before_cursor id (some (pos n)) = ltb id n
before_cursor id (some (negsuc n)) = false

-- `EXTRACT(EPOCH FROM created_at)::bigint * 1000`: whole seconds, rounded, in milliseconds.
abbrev pub send_time_of : Time → ℕ
send_time_of t = (t + 500000) / 1000000 * 1000

-- The row of a user, and the name in it, for a join with im_users.
abbrev pub user_row : Uuid → List User → Option User
user_row uid = find? (λ u. u.id == uid)

-- A nullable text column equals a text that is not null.
abbrev pub same_key : Option String → String → Bool
same_key none s = false
same_key (some k) s = same k s
