-- ===== src/Dao/Graph/Proper.antt =====
-- What holds of every graph that changes lead to from nobody.
use myx_im.Base.{◌≡◌, refl, true, arith}
use myx_im.Model.{Uuid}
use myx_im.Dao.Graph.{
  Graph, nobody, Change, registers, founds, joins, leaves, befriends, disbands, departs, Becomes,
  here, then_change,
}

-- Friends are users, and of each other; members and owners are users, and their groups are there.
pub record IsProper (G : Graph) : Type 0 where
  pub friend_user : (a b : Uuid) → G.friend a b ≡ true → G.user a ≡ true
  pub both_ways : (a b : Uuid) → G.friend a b ≡ G.friend b a
  pub member_user : (g u : Uuid) → G.member g u ≡ true → G.user u ≡ true
  pub member_group : (g u : Uuid) → G.member g u ≡ true → G.group g ≡ true
  pub owner_user : (u g : Uuid) → G.owns u g ≡ true → G.user u ≡ true
  pub owner_group : (u g : Uuid) → G.owns u g ≡ true → G.group g ≡ true

Change-IsProper : {G H : Graph} → Change G H → IsProper G → IsProper H
Change-IsProper (registers uid new) v = record {
  friend_user = λ a b h. ground (arith, v.friend_user a b h);
  both_ways = v.both_ways;
  member_user = λ g u h. ground (arith, v.member_user g u h);
  member_group = v.member_group;
  owner_user = λ u g h. ground (arith, v.owner_user u g h);
  owner_group = v.owner_group;
}
Change-IsProper {G} (founds gid uid new known) v = record {
  friend_user = v.friend_user;
  both_ways = v.both_ways;
  member_user = v.member_user;
  member_group = λ g u h. ground (arith, v.member_group g u h);
  owner_user = λ u g h. ground (arith, known, v.owner_user u g);
  owner_group = λ u g h. ground (arith, v.owner_group u g);
}
Change-IsProper (joins gid uid there known) v = record {
  friend_user = v.friend_user;
  both_ways = v.both_ways;
  member_user = λ g u h. ground (arith, known, v.member_user g u);
  member_group = λ g u h. ground (arith, there, v.member_group g u);
  owner_user = v.owner_user;
  owner_group = v.owner_group;
}
Change-IsProper (leaves gid uid) v = record {
  friend_user = v.friend_user;
  both_ways = v.both_ways;
  member_user = λ g u h. ground (arith, v.member_user g u);
  member_group = λ g u h. ground (arith, v.member_group g u);
  owner_user = v.owner_user;
  owner_group = v.owner_group;
}
Change-IsProper (befriends a b ka kb) v = record {
  friend_user = λ x y h. ground (arith, ka, kb, v.friend_user x y);
  both_ways = λ x y. ground (arith, v.both_ways x y);
  member_user = v.member_user;
  member_group = v.member_group;
  owner_user = v.owner_user;
  owner_group = v.owner_group;
}
Change-IsProper (disbands gid) v = record {
  friend_user = v.friend_user;
  both_ways = v.both_ways;
  member_user = λ g u h. ground (arith, v.member_user g u);
  member_group = λ g u h. ground (arith, v.member_group g u);
  owner_user = λ u g h. ground (arith, v.owner_user u g);
  owner_group = λ u g h. ground (arith, v.owner_group u g);
}
Change-IsProper (departs uid free) v = record {
  friend_user = λ a b h. ground (arith, v.friend_user a b);
  both_ways = λ a b. ground (arith, v.both_ways a b);
  member_user = λ g u h. ground (arith, v.member_user g u);
  member_group = λ g u h. ground (arith, v.member_group g u);
  owner_user = λ u g h. ground (arith, v.owner_user u g h, free g);
  owner_group = v.owner_group;
}

-- Every graph that changes lead to is proper.
pub Becomes-IsProper : {G : Graph} → Becomes nobody G → IsProper G
Becomes-IsProper here = record {
  friend_user = λ a b h. cc;
  both_ways = λ a b. refl;
  member_user = λ g u h. cc;
  member_group = λ g u h. cc;
  owner_user = λ u g h. cc;
  owner_group = λ u g h. cc;
}
Becomes-IsProper (then_change r c) = Change-IsProper c (Becomes-IsProper r)
