-- ===== src/Dao/Graph.antt =====
-- What the tables of src/dao.rs are for: who there is, which groups there are and whose they are, who
-- is in which group, and who are friends. The rows are forgotten, with their order and their dates.
pub mod Rows
pub mod Inserts
pub mod Proper
pub mod Befriend
pub mod Operations
use myx_im.Base.{◌≡◌, Bool, true, false, ◌&&◌, ◌||◌, not, ◌==◌, any}
use myx_im.Model.{Uuid}
use myx_im.Db.{Db, Group}
use myx_im.Dao.Users.{has_user}
use myx_im.Dao.Groups.{has_group, is_member}
use myx_im.Dao.Friends.{are_friends}

pub record Graph : Type 0 where
  pub user : Uuid → Bool
  pub group : Uuid → Bool
  pub owns : Uuid → Uuid → Bool
  pub member : Uuid → Uuid → Bool
  pub friend : Uuid → Uuid → Bool

abbrev pub nobody : Graph
nobody = record {
  user = λ u. false;
  group = λ g. false;
  owns = λ u g. false;
  member = λ g u. false;
  friend = λ a b. false;
}

abbrev pub befriend : Uuid → Uuid → Graph → Graph
befriend a b G = record G {
  friend = λ x y. (a == x && b == y) || (b == x && a == y) || G.friend x y;
}

abbrev pub depart : Uuid → Graph → Graph
depart uid G = record G {
  user = λ u. not (u == uid) && G.user u;
  member = λ g u. not (u == uid) && G.member g u;
  friend = λ a b. not (a == uid || b == uid) && G.friend a b;
}

abbrev pub disband : Uuid → Graph → Graph
disband gid G = record G {
  group = λ g. not (g == gid) && G.group g;
  owns = λ u g. not (g == gid) && G.owns u g;
  member = λ g u. not (g == gid) && G.member g u;
}

-- What may happen to the graph.
pub data Change (G : Graph) : Graph → Type 0 where
  registers :
      (uid : Uuid) → G.user uid ≡ false → Change G (record G { user = λ u. uid == u || G.user u })
  founds :
      (gid uid : Uuid)
      → G.group gid ≡ false
      → G.user uid ≡ true
      → Change G (record G {
        group = λ g. gid == g || G.group g;
        owns = λ u g. (gid == g && uid == u) || G.owns u g;
      })
  joins :
      (gid uid : Uuid)
      → G.group gid ≡ true
      → G.user uid ≡ true
      → Change G (record G { member = λ g u. (gid == g && uid == u) || G.member g u })
  leaves :
      (gid uid : Uuid)
      → Change G (record G { member = λ g u. not (g == gid && u == uid) && G.member g u })
  -- Two users become friends of each other at once.
  befriends : (a b : Uuid) → G.user a ≡ true → G.user b ≡ true → Change G (befriend a b G)
  disbands : (gid : Uuid) → Change G (disband gid G)
  -- A user leaves who owns no group.
  departs : (uid : Uuid) → ((g : Uuid) → G.owns uid g ≡ false) → Change G (depart uid G)

pub data Becomes (G : Graph) : Graph → Type 0 where
  here : Becomes G G
  then_change : {H K : Graph} → Becomes G H → Change H K → Becomes G K

abbrev pub is_owner : Uuid → Uuid → Group → Bool
is_owner uid gid g = g.id == gid && g.owner_uid == uid

-- The rows say what the graph says.
pub record Represents (G : Graph) (db : Db) : Type 0 where
  pub users : (u : Uuid) → has_user u db.users ≡ G.user u
  pub groups : (g : Uuid) → has_group g db.groups ≡ G.group g
  pub owners : (u g : Uuid) → any (is_owner u g) db.groups ≡ G.owns u g
  pub members : (g u : Uuid) → is_member g u db ≡ G.member g u
  pub friends : (a b : Uuid) → are_friends a b db ≡ G.friend a b

-- The rows say what some course of changes leads to.
abbrev pub IsGraph : Db → Type 0
IsGraph db = (G : Graph) × Becomes nobody G × Represents G db
