-- ===== src/Dao/Graph/Befriend.antt =====
-- src/dao.rs, add_friend, as one change of the graph, or none.
use myx_im.Base.{ℕ, ◌≡◌, refl, sym, ◌∙◌, subst, true, ◌&&◌, ◌||◌, List, inl, inr, Bool-cases, arith}
use myx_im.Base.Outcome.{Outcome, ok, err, state_of, ◌>>◌}
use myx_im.Model.{Uuid, User}
use myx_im.Db.{Db, Group, Membership}
use myx_im.Db.Statement.{Pool, DbError, statement, empty_statement}
use myx_im.Db.Keeps.{Keeps, KeepsRows, statement-Keeps, >>=-Keeps, transaction-Keeps}
use myx_im.Db.Inversion.{statement-ok, rollback-ok, bind-ok}
use myx_im.Dao.Users.{has_user}
use myx_im.Dao.Friends.{are_friends, insert_friend, add_friend}
use myx_im.Dao.Friends.Pairs.{add_friend_ok, add_friend_err}
use myx_im.Dao.Graph.{Graph, befriend, befriends, then_change, IsGraph}
use myx_im.Dao.Graph.Proper.{IsProper, Becomes-IsProper}

-- The other tables of the graph.
abbrev HasRows : List User → List Group → List Membership → Db → Type 0
HasRows us gs ms db = (db.users ≡ us) × (db.groups ≡ gs) × (db.members ≡ ms)

insert_friend-HasRows :
    (us : List User) (gs : List Group) (ms : List Membership) (now a b : ℕ)
    → KeepsRows (HasRows us gs ms) (insert_friend now a b)
insert_friend-HasRows us gs ms now a b db v = elim (Bool-cases (are_friends a b db)) [
  | inl e ↦ rw e v
  | inr e ↦ rw e (elim (Bool-cases (has_user a db.users && has_user b db.users)) [
    | inl k ↦ rw k v
    | inr k ↦ rw k v
  ])
]

add_friend-HasRows :
    (us : List User) (gs : List Group) (ms : List Membership) (now a b : ℕ)
    → Keeps (HasRows us gs ms) (add_friend now a b)
unfolding add_friend
add_friend-HasRows us gs ms now a b = transaction-Keeps (HasRows us gs ms) _ (
    >>=-Keeps (HasRows us gs ms) (statement (insert_friend now a b)) _
      (statement-Keeps (HasRows us gs ms) _ (insert_friend-HasRows us gs ms now a b))
      (λ _. statement-Keeps (HasRows us gs ms) _ (insert_friend-HasRows us gs ms now b a)))

insert_friend-known :
    (now a b : ℕ) (u : Unit {0}) (db db' : Db)
    → insert_friend now a b db ≡ ok u db'
    → (are_friends a b db || (has_user a db.users && has_user b db.users)) ≡ true
insert_friend-known now a b u db db' h = elim (Bool-cases (are_friends a b db)) [
  | inl e ↦ rw e refl
  | inr e ↦ elim (Bool-cases (has_user a db.users && has_user b db.users)) [
    | inl k ↦ rw (e, k) refl
    | inr k ↦ ground (arith, e, k, h)
  ]
]

-- An add_friend that succeeds was for two friends or two users.
add_friend-known :
    (now a b : ℕ) (p q : Pool)
    → add_friend now a b p ≡ ok tt q
    → (are_friends a b p.db || (has_user a p.db.users && has_user b p.db.users)) ≡ true
unfolding add_friend
add_friend-known now a b p q h =
    let both = (do statement (insert_friend now a b); statement (insert_friend now b a)) in
    let inner = rollback-ok p.db _ h in
    let (u, p1, e1, h1) = bind-ok (statement empty_statement) _ p inner in
    let (v, p3, e3, h3) = bind-ok both _ p1 h1 in
    let (w, p2, e2, h2) = bind-ok (statement (insert_friend now a b)) _ p1 e3 in
    ground (
      arith,
      statement-ok empty_statement p e1,
      insert_friend-known now a b w p1.db p2.db (statement-ok (insert_friend now a b) p1 e2),
    )

-- Of a proper graph.
known_users :
    (G : Graph) (a b : Uuid)
    → IsProper G
    → (G.friend a b || (G.user a && G.user b)) ≡ true
    → (G.user a ≡ true) × (G.user b ≡ true)
known_users G a b w h = elim (Bool-cases (G.friend a b)) [
  | inl e ↦ (w.friend_user a b e, w.friend_user b a (sym (w.both_ways a b) ∙ e))
  | inr e ↦ (ground (arith, e, h), ground (arith, e, h))
]

befriended :
    (now a b : ℕ) (p q : Pool)
    → add_friend now a b p ≡ ok tt q
    → HasRows p.db.users p.db.groups p.db.members q.db
    → IsGraph p.db
    → IsGraph q.db
befriended now a b p q e t (G, r, v) =
    let known : ((G.friend a b || (G.user a && G.user b)) ≡ true) =
      ground (arith, v.friends a b, v.users a, v.users b, add_friend-known now a b p q e) in
    let us = known_users G a b (Becomes-IsProper r) known in
    (
      befriend a b G,
      then_change r (befriends a b us.0 us.1),
      record {
        users = λ u. rw t.0 (v.users u);
        groups = λ g. rw t.1 (v.groups g);
        owners = λ u g. rw t.1 (v.owners u g);
        members = λ g u. rw t.2 (v.members g u);
        friends = λ x y. ground (arith, add_friend_ok now a b p q x y e, v.friends x y);
      },
    )

pub add_friend-IsGraph : (now a b : ℕ) → Keeps IsGraph (add_friend now a b)
add_friend-IsGraph now a b p v =
    outcome (add_friend now a b p) refl
      (add_friend-HasRows p.db.users p.db.groups p.db.members now a b p (refl, refl, refl))
  where
    outcome :
        (r : Outcome Pool DbError (Unit {0}))
        → add_friend now a b p ≡ r
        → HasRows p.db.users p.db.groups p.db.members (state_of r).db
        → IsGraph (state_of r).db
    outcome (ok tt q) e t = befriended now a b p q e t v
    outcome (err x q) e t = subst IsGraph (sym (add_friend_err now a b p q x e)) v
