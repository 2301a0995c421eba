-- ===== src/Dao/Graph/Rows.antt =====
-- The statements of src/dao.rs that delete rows, as changes of the graph.
use myx_im.Base.{
  ℕ, ◌≡◌, refl, sym, Bool, true, false, ◌&&◌, ◌||◌, not, List, [], ◌∷◌, any, filter, ◌==◌, inl, inr,
  Bool-cases, arith,
}
use myx_im.Model.{Uuid}
use myx_im.Db.{Db, Group}
use myx_im.Db.Keeps.{KeepsRows}
use myx_im.Dao.Groups.{is_membership, delete_member}
use myx_im.Dao.Friends.{is_pair}
use myx_im.Dao.Delete.{delete_group, delete_account, is_referenced}
use myx_im.Dao.Graph.{leaves, disbands, departs, disband, depart, then_change, is_owner, IsGraph}

module _ {A : Type 0} where
  -- The rows of one key after a deletion that takes all of them or none.
  any-filter_key :
      (q p : A → Bool) (c : Bool) (xs : List A)
      → ((a : A) → q a ≡ true → p a ≡ c)
      → any q (filter (λ a. not (p a)) xs) ≡ (not c && any q xs)
  any-filter_key q p c [] h = ground arith
  any-filter_key q p c (x ∷ xs) h = elim (Bool-cases (q x)) [
    | inl e ↦ rw (h x e, e) (ground (arith, any-filter_key q p c xs h, e))
    | inr e ↦ elim (Bool-cases (p x)) [
      | inl k ↦ rw (k, e) (any-filter_key q p c xs h)
      | inr k ↦ rw (k, e) (any-filter_key q p c xs h)
    ]
  ]

-- The rows of the tables of the graph are as they were.
abbrev pub HasSameRows : Db → Db → Type 0
HasSameRows db db' =
    (db'.users ≡ db.users)
    × (db'.groups ≡ db.groups)
    × (db'.members ≡ db.members)
    × (db'.friends ≡ db.friends)

pub unchanged : (db db' : Db) → HasSameRows db db' → IsGraph db → IsGraph db'
unchanged db db' (us, gs, ms, fs) (G, r, v) = (
  G,
  r,
  record {
    users = λ u. rw us (v.users u);
    groups = λ g. rw gs (v.groups g);
    owners = λ u g. rw gs (v.owners u g);
    members = λ g u. rw ms (v.members g u);
    friends = λ a b. rw fs (v.friends a b);
  },
)

pub delete_member-IsGraph : (gid uid : ℕ) → KeepsRows IsGraph (delete_member gid uid)
delete_member-IsGraph gid uid db (G, r, v) = (
  record G { member = λ g u. not (g == gid && u == uid) && G.member g u },
  then_change r (leaves gid uid),
  record {
    users = v.users;
    groups = v.groups;
    owners = v.owners;
    members = λ g u. rw (sym (v.members g u)) (
        any-filter_key (is_membership g u) (is_membership gid uid) (g == gid && u == uid) db.members
          (λ m h. ground arith));
    friends = v.friends;
  },
)

pub delete_group-IsGraph : (gid : ℕ) → KeepsRows IsGraph (delete_group gid)
delete_group-IsGraph gid db (G, r, v) = (
  disband gid G,
  then_change r (disbands gid),
  record {
    users = v.users;
    groups = λ g. rw (sym (v.groups g)) (
        any-filter_key (λ x. x.id == g) (λ x. x.id == gid) (g == gid) db.groups
          (λ x h. ground arith));
    owners = λ u g. rw (sym (v.owners u g)) (
        any-filter_key (is_owner u g) (λ x. x.id == gid) (g == gid) db.groups
          (λ x h. ground arith));
    members = λ g u. rw (sym (v.members g u)) (
        any-filter_key (is_membership g u) (λ m. m.group_id == gid) (g == gid) db.members
          (λ m h. ground arith));
    friends = v.friends;
  },
)

none_owned :
    (uid g : Uuid) (gs : List Group)
    → any (λ x. x.owner_uid == uid) gs ≡ false
    → any (is_owner uid g) gs ≡ false
none_owned uid g [] h = refl
none_owned uid g (x ∷ gs) h = ground (arith, none_owned uid g gs)

-- The account of a user to whom nothing refers.
account_deleted :
    (uid : ℕ) (db : Db)
    → any (λ g. g.owner_uid == uid) db.groups ≡ false
    → IsGraph db
    → IsGraph (record db {
      users = filter (λ u. not (u.id == uid)) db.users;
      members = filter (λ m. not (m.user_id == uid)) db.members;
      group_read_cursors = filter (λ c. not (c.user_id == uid)) db.group_read_cursors;
      friends = filter (λ f. not (f.user_id == uid || f.friend_id == uid)) db.friends;
    })
account_deleted uid db none (G, r, v) = (
  depart uid G,
  then_change r (departs uid (λ g. rw (sym (v.owners uid g)) (none_owned uid g db.groups none))),
  record {
    users = λ u. rw (sym (v.users u)) (
        any-filter_key (λ x. x.id == u) (λ x. x.id == uid) (u == uid) db.users
          (λ x h. ground arith));
    groups = v.groups;
    owners = v.owners;
    members = λ g u. rw (sym (v.members g u)) (
        any-filter_key (is_membership g u) (λ m. m.user_id == uid) (u == uid) db.members
          (λ m h. ground arith));
    friends = λ a b. rw (sym (v.friends a b)) (
        any-filter_key (is_pair a b) (λ f. f.user_id == uid || f.friend_id == uid)
          (a == uid || b == uid) db.friends (λ f h. ground arith));
  },
)

pub delete_account-IsGraph : (uid : ℕ) → KeepsRows IsGraph (delete_account uid)
delete_account-IsGraph uid db v = elim (Bool-cases (is_referenced uid db)) [
  | inl e ↦ rw e v
  | inr e ↦ rw e (account_deleted uid db (ground (arith, e)) v)
]
