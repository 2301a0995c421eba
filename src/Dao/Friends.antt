-- ===== src/Dao/Friends.antt =====
-- src/dao.rs: friends (im_friends).
pub mod Pairs
pub mod Mutual
use myx_im.Base.{
  String, Bool, ◌&&◌, none, some, List, [], ◌∷◌, filter, any, ◌==◌, if◌then◌else◌, sort_by,
}
use myx_im.Base.Outcome.{ok, err, ◌>>=◌, ◌>>◌}
use myx_im.Model.{Uuid, Time, User, FriendInfo}
use myx_im.Db.{Db, Friend}
use myx_im.Db.Statement.{Sql, Dao, statement, transaction, foreign_key_violation}
use myx_im.Dao.Select.{user_row}
use myx_im.Dao.Users.{has_user}

abbrev pub is_pair : Uuid → Uuid → Friend → Bool
is_pair a b f = f.user_id == a && f.friend_id == b

abbrev pub are_friends : Uuid → Uuid → Db → Bool
are_friends a b db = any (is_pair a b) db.friends

-- `INSERT … ON CONFLICT DO NOTHING`; both users must exist.
abbrev pub insert_friend : Time → Uuid → Uuid → Sql (Unit {0})
insert_friend now a b db =
    if are_friends a b db
    then ok tt db
    else if has_user a db.users && has_user b db.users
    then ok tt (record db {
      friends = record { user_id = a; friend_id = b; created_at = now } ∷ db.friends;
    })
    else err (foreign_key_violation "im_friends") db

unfoldable pub add_friend : Time → Uuid → Uuid → Dao (Unit {0})
add_friend now user_id friend_id = transaction do
  statement (insert_friend now user_id friend_id)
  statement (insert_friend now friend_id user_id)

abbrev friend_info : Friend → User → FriendInfo
friend_info f u = record {
  friend_id = f.friend_id;
  username = u.username;
  created_at = some f.created_at;
}

abbrev pub join_names : List User → List Friend → List FriendInfo
join_names users [] = []
join_names users (f ∷ fs) =
    let rest = join_names users fs in
    elim (user_row f.friend_id users) [ none ↦ rest | some u ↦ friend_info f u ∷ rest ]

-- `collates a b` says that `a` does not come after `b` in the order of the database's texts.
abbrev pub friend_rows : (String → String → Bool) → Uuid → Db → List FriendInfo
friend_rows collates user_id db =
    sort_by (λ f g. collates f.username g.username)
      (join_names db.users (filter (λ f. f.user_id == user_id) db.friends))

unfoldable pub list_friends : (String → String → Bool) → Uuid → Dao (List FriendInfo)
list_friends collates user_id = statement (λ db. ok (friend_rows collates user_id db) db)
