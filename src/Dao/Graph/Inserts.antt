-- ===== src/Dao/Graph/Inserts.antt =====
-- The statements of src/dao.rs that insert users, groups and members, as changes of the graph.
use myx_im.Base.{
  ℕ, String, ◌≡◌, sym, ap, ◌∙◌, true, false, ◌&&◌, ◌||◌, ◌∷◌, any, ◌==◌, inl, inr, some, Bool-cases,
  Option-cases, arith,
}
use myx_im.Model.{User}
use myx_im.Db.{Db, Group, Membership}
use myx_im.Db.Keeps.{KeepsRows}
use myx_im.Dao.Users.{has_user, named, varchar, insert_user}
use myx_im.Dao.Groups.{
  has_group, is_member, can_belong, owns_name, insert_group, insert_owner, insert_member,
}
use myx_im.Dao.Graph.{registers, founds, joins, then_change, IsGraph}

user_added :
    (u : User) (db : Db)
    → has_user u.id db.users ≡ false
    → IsGraph db
    → IsGraph (record db { users = u ∷ db.users })
user_added u db fresh (G, r, v) = (
  record G { user = λ x. u.id == x || G.user x },
  then_change r (registers u.id (sym (v.users u.id) ∙ fresh)),
  record {
    users = λ x. ap (λ b. u.id == x || b) (v.users x);
    groups = v.groups;
    owners = v.owners;
    members = v.members;
    friends = v.friends;
  },
)

pub insert_user-IsGraph :
    (now uid : ℕ) (name hash : String) → KeepsRows IsGraph (insert_user now uid name hash)
insert_user-IsGraph now uid name hash db v = elim (Option-cases (varchar 20 name)) [
  | inl e ↦ rw e v
  | inr (stored, e) ↦ rw e (elim (Bool-cases (has_user uid db.users)) [
    | inl k ↦ rw k v
    | inr k ↦ rw k (elim (Bool-cases (any (named stored) db.users)) [
      | inl n ↦ rw n v
      | inr n ↦ rw n (
          user_added
            (record { id = uid; username = stored; password_hash = hash; created_at = some now }) db
            k v)
    ])
  ])
]

group_added :
    (g : Group) (db : Db)
    → has_group g.id db.groups ≡ false
    → has_user g.owner_uid db.users ≡ true
    → IsGraph db
    → IsGraph (record db { groups = g ∷ db.groups })
group_added g db fresh u (G, r, v) = (
  record G {
    group = λ x. g.id == x || G.group x;
    owns = λ o x. (g.id == x && g.owner_uid == o) || G.owns o x;
  },
  then_change r
      (founds g.id g.owner_uid (sym (v.groups g.id) ∙ fresh) (sym (v.users g.owner_uid) ∙ u)),
  record {
    users = v.users;
    groups = λ x. ap (λ b. g.id == x || b) (v.groups x);
    owners = λ o x. ap (λ b. (g.id == x && g.owner_uid == o) || b) (v.owners o x);
    members = v.members;
    friends = v.friends;
  },
)

pub insert_group-IsGraph :
    (now gid : ℕ) (name : String) (owner : ℕ) → KeepsRows IsGraph (insert_group now gid name owner)
insert_group-IsGraph now gid name owner db v = elim (Option-cases (varchar 50 name)) [
  | inl e ↦ rw e v
  | inr (stored, e) ↦ rw e (elim (Bool-cases (has_group gid db.groups)) [
    | inl k ↦ rw k v
    | inr k ↦ rw k (elim (Bool-cases (any (owns_name owner stored) db.groups)) [
      | inl n ↦ rw n v
      | inr n ↦ rw n (elim (Bool-cases (has_user owner db.users)) [
        | inl u ↦ rw u (group_added _ db k u v)
        | inr u ↦ rw u v
      ])
    ])
  ])
]

member_added :
    (m : Membership) (db : Db)
    → can_belong m.group_id m.user_id db ≡ true
    → IsGraph db
    → IsGraph (record db { members = m ∷ db.members })
member_added m db b (G, r, v) = (
  record G { member = λ g u. (m.group_id == g && m.user_id == u) || G.member g u },
  then_change r (
      joins m.group_id m.user_id (sym (v.groups m.group_id) ∙ ground (arith, b))
        (sym (v.users m.user_id) ∙ ground (arith, b))),
  record {
    users = v.users;
    groups = v.groups;
    owners = v.owners;
    members = λ g u. ap (λ b. (m.group_id == g && m.user_id == u) || b) (v.members g u);
    friends = v.friends;
  },
)

pub insert_owner-IsGraph : (now gid uid : ℕ) → KeepsRows IsGraph (insert_owner now gid uid)
insert_owner-IsGraph now gid uid db v = elim (Bool-cases (is_member gid uid db)) [
  | inl e ↦ rw e v
  | inr e ↦ rw e (elim (Bool-cases (can_belong gid uid db)) [
    | inl b ↦ rw b (member_added _ db b v)
    | inr b ↦ rw b v
  ])
]

pub insert_member-IsGraph : (now gid uid : ℕ) → KeepsRows IsGraph (insert_member now gid uid)
insert_member-IsGraph now gid uid db v = elim (Bool-cases (is_member gid uid db)) [
  | inl e ↦ rw e v
  | inr e ↦ rw e (elim (Bool-cases (can_belong gid uid db)) [
    | inl b ↦ rw b (member_added _ db b v)
    | inr b ↦ rw b v
  ])
]
