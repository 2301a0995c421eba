-- ===== src/Dao/Groups.antt =====
-- src/dao.rs: groups and their members (im_groups and im_group_members).
pub mod Members
pub mod Orphan
use myx_im.Base.{
  ℕ, String, Bool, ◌&&◌, not, Option, none, some, List, [], ◌∷◌, map, filter, find?, any, ltb, leb,
  ◌==◌, if◌then◌else◌, sort_by, count_if, is_some, same,
}
use myx_im.Base.Int.{ℤ}
use myx_im.Base.Outcome.{ok, err, ◌>>=◌, ◌>>◌, pure, throw}
use myx_im.Model.{Uuid, Time, User, GroupInfo, GroupMember}
use myx_im.Db.{Db, Group, Membership}
use myx_im.Db.Statement.{
  Sql, Dao, statement, or_default, unique_violation, foreign_key_violation, value_too_long,
  row_not_found, anyhow,
}
use myx_im.Dao.Select.{limited, user_row}
use myx_im.Dao.Users.{varchar, has_user, contains_pattern}

abbrev pub owns_name : Uuid → String → Group → Bool
owns_name owner name g = g.owner_uid == owner && same g.name name

abbrev pub has_group : Uuid → List Group → Bool
has_group gid = any (λ g. g.id == gid)

abbrev pub is_membership : Uuid → Uuid → Membership → Bool
is_membership gid uid m = m.group_id == gid && m.user_id == uid

abbrev pub is_member : Uuid → Uuid → Db → Bool
is_member gid uid db = any (is_membership gid uid) db.members

-- The references of a row of im_group_members to its group and its user.
abbrev pub can_belong : Uuid → Uuid → Db → Bool
can_belong gid uid db = has_group gid db.groups && has_user uid db.users

abbrev add_membership : Time → Uuid → Uuid → Db → Db
add_membership now gid uid db = record db {
  members = record { group_id = gid; user_id = uid; joined_at = now } ∷ db.members;
}

abbrev pub select_owned_name : Uuid → String → Sql (Option Group)
select_owned_name owner name db = ok (find? (owns_name owner name) db.groups) db

abbrev insert_group_stored : Time → Uuid → Option String → Uuid → Sql (Unit {0})
insert_group_stored now gid none owner db = err (value_too_long 50) db
insert_group_stored now gid (some name) owner db =
    if has_group gid db.groups
    then err (unique_violation "im_groups_pkey") db
    else if any (owns_name owner name) db.groups
    then err (unique_violation "im_groups_owner_uid_name_key") db
    else if has_user owner db.users
    then ok tt (record db {
      groups = record { id = gid; name = name; owner_uid = owner; created_at = now } ∷ db.groups;
    })
    else err (foreign_key_violation "im_groups_owner_uid_fkey") db

abbrev pub insert_group : Time → Uuid → String → Uuid → Sql (Unit {0})
insert_group now gid name owner = insert_group_stored now gid (varchar 50 name) owner

-- `INSERT INTO im_group_members` without a conflict clause.
abbrev pub insert_owner : Time → Uuid → Uuid → Sql (Unit {0})
insert_owner now gid uid db =
    if is_member gid uid db
    then err (unique_violation "im_group_members_pkey") db
    else if can_belong gid uid db
    then ok tt (add_membership now gid uid db)
    else err (foreign_key_violation "im_group_members") db

abbrev name_of : Option User → Sql String
name_of none db = err row_not_found db
name_of (some u) db = ok u.username db

abbrev pub select_username : Uuid → Sql String
select_username uid db = name_of (user_row uid db.users) db

abbrev created_info : Uuid → String → Uuid → String → GroupInfo
created_info gid name owner owner_name = record {
  group_id = gid;
  name = name;
  owner_uid = owner;
  owner_name = some owner_name;
  member_count = 1;
  created_at = none;
}

abbrev insert_new_group : Time → Uuid → String → Uuid → Dao GroupInfo
insert_new_group now gid name owner = do
  statement (insert_group now gid name owner)
  statement (insert_owner now gid owner)
  owner_name ← or_default "" (statement (select_username owner))
  pure (created_info gid name owner owner_name)

abbrev pub create_if_free : Time → Uuid → String → Uuid → Option Group → Dao GroupInfo
create_if_free now gid name owner (some g) =
    throw (anyhow "group name already exists for this owner")
create_if_free now gid name owner none = insert_new_group now gid name owner

-- `gid` is the UUID that `Uuid::new_v4` returns.
unfoldable pub create_group : Time → Uuid → String → Uuid → Dao GroupInfo
create_group now gid name owner = do
  existing ← statement (select_owned_name owner name)
  create_if_free now gid name owner existing

-- `INSERT … ON CONFLICT DO NOTHING`, with the number of rows inserted.
abbrev pub insert_member : Time → Uuid → Uuid → Sql ℕ
insert_member now gid uid db =
    if is_member gid uid db
    then ok 0 db
    else if can_belong gid uid db
    then ok 1 (add_membership now gid uid db)
    else err (foreign_key_violation "im_group_members") db

unfoldable pub join_group : Time → Uuid → Uuid → Dao Bool
join_group now gid uid = do
  rows_affected ← statement (insert_member now gid uid)
  pure (ltb 0 rows_affected)

abbrev pub delete_member : Uuid → Uuid → Sql (Unit {0})
delete_member gid uid db =
    ok tt (record db { members = filter (λ m. not (is_membership gid uid m)) db.members })

unfoldable pub leave_group : Uuid → Uuid → Dao (Unit {0})
leave_group gid uid = statement (delete_member gid uid)

unfoldable pub is_group_member : Uuid → Uuid → Dao Bool
is_group_member gid uid = do
  row ← statement (λ db. ok (find? (is_membership gid uid) db.members) db)
  pure (is_some row)

abbrev pub member_uids : Uuid → Db → List Uuid
member_uids gid db = map (λ m. m.user_id) (filter (λ m. m.group_id == gid) db.members)

unfoldable pub get_group_member_uids : Uuid → Dao (List Uuid)
get_group_member_uids gid = statement (λ db. ok (member_uids gid db) db)

-- `COUNT(*)` of the members of a group.
abbrev pub member_count : Uuid → Db → ℕ
member_count gid db = count_if (λ m. m.group_id == gid) db.members

abbrev newest_first : Group → Group → Bool
newest_first g h = leb h.created_at g.created_at

abbrev group_info : Db → Group → User → GroupInfo
group_info db g owner = record {
  group_id = g.id;
  name = g.name;
  owner_uid = g.owner_uid;
  owner_name = some owner.username;
  member_count = member_count g.id db;
  created_at = some g.created_at;
}

-- The join of groups with their owners, and the count of their members.
abbrev pub group_infos : Db → List Group → List GroupInfo
group_infos db [] = []
group_infos db (g ∷ gs) =
    let rest = group_infos db gs in
    elim (user_row g.owner_uid db.users) [ none ↦ rest | some u ↦ group_info db g u ∷ rest ]

unfoldable pub list_my_groups : Uuid → Dao (List GroupInfo)
list_my_groups uid = statement (λ db.
    ok (group_infos db (sort_by newest_first (filter (λ g. is_member g.id uid db) db.groups))) db)

unfoldable pub search_groups : (String → String → Bool) → String → ℤ → Dao (List GroupInfo)
search_groups ilike keyword limit = statement (λ db.
    limited limit
      (group_infos db
        (sort_by newest_first (filter (λ g. ilike g.name (contains_pattern keyword)) db.groups)))
      db)

abbrev joined_first : Membership → Membership → Bool
joined_first m n = leb m.joined_at n.joined_at

abbrev pub named_members : List User → List Membership → List GroupMember
named_members users [] = []
named_members users (m ∷ ms) =
    let rest = named_members users ms in
    elim (user_row m.user_id users) [
      | none ↦ rest
      | some u ↦ record { user_id = u.id; username = u.username } ∷ rest
    ]

unfoldable pub list_group_members : Uuid → Dao (List GroupMember)
list_group_members gid = statement (λ db.
    ok (named_members db.users (sort_by joined_first (filter (λ m. m.group_id == gid) db.members)))
      db)
