-- ===== src/Dao/Friends/Pairs.antt =====
-- src/dao.rs, add_friend: both rows or none, whichever statements fail.
use myx_im.Base.{ℕ, ◌≡◌, ◌⊎◌, true, ◌&&◌, ◌||◌, ◌==◌, if◌then◌else◌, arith, Bool-cases, inl, inr}
use myx_im.Base.Outcome.{Outcome-cases, ok, err, ◌>>◌}
use myx_im.Db.{Db}
use myx_im.Db.Statement.{Pool, DbError, statement, empty_statement}
use myx_im.Db.Inversion.{statement-ok, rollback-ok, rollback-err, bind-ok}
use myx_im.Dao.Users.{has_user}
use myx_im.Dao.Friends.{are_friends, insert_friend, add_friend}

-- The rows after a successful insertion.
insert_friend-ok :
    (now a b : ℕ) (u : Unit {0}) (db db' : Db) (x y : ℕ)
    → insert_friend now a b db ≡ ok u db'
    → are_friends x y db' ≡ (if a == x && b == y then true else are_friends x y db)
insert_friend-ok now a b u db db' x y h = elim (Bool-cases (are_friends a b db)) [
  | inl e ↦ inserted_before e
  | inr e ↦ elim (Bool-cases (has_user a db.users && has_user b db.users)) [
    | inl k ↦ ground (arith, e, k)
    | inr k ↦ ground (arith, e, k)
  ]
]
  where
    inserted_before :
        are_friends a b db ≡ true
        → are_friends x y db' ≡ (if a == x && b == y then true else are_friends x y db)
    inserted_before e = elim (Bool-cases (a == x && b == y)) [
      | inl k ↦ rw k (ground (arith, e, k))
      | inr k ↦ rw k (ground (arith, e, k))
    ]

-- An `add_friend` that fails leaves the database as it was.
pub add_friend_err :
    (now a b : ℕ) (p q : Pool) (e : DbError) → add_friend now a b p ≡ err e q → q.db ≡ p.db
unfolding add_friend
add_friend_err now a b p q e h = rollback-err p.db _ h

-- One that succeeds adds the pair in both directions, and no other.
pub add_friend_ok :
    (now a b : ℕ) (p q : Pool) (x y : ℕ)
    → add_friend now a b p ≡ ok tt q
    → are_friends x y q.db
      ≡ (if (a == x && b == y) || (b == x && a == y) then true else are_friends x y p.db)
unfolding add_friend
add_friend_ok now a b p q x y h =
    let both = (do statement (insert_friend now a b); statement (insert_friend now b a)) in
    let inner = rollback-ok p.db _ h in
    let (u, p1, e1, h1) = bind-ok (statement empty_statement) _ p inner in
    let (v, p3, e3, h3) = bind-ok both _ p1 h1 in
    let (w, p2, e2, h2) = bind-ok (statement (insert_friend now a b)) _ p1 e3 in
    let (z, p4, e4, h4) = bind-ok (statement empty_statement) _ p3 h3 in
    ground (
      arith,
      statement-ok empty_statement p e1,
      insert_friend-ok now a b w p1.db p2.db x y (statement-ok (insert_friend now a b) p1 e2),
      insert_friend-ok now b a v p2.db p3.db x y (statement-ok (insert_friend now b a) p2 h2),
      statement-ok empty_statement p3 e4,
      h4,
    )

-- Whichever statements fail, add_friend either succeeds and adds the pair in both directions, and no
-- other, or fails and leaves the database as it was.
pub add_friend_lem :
    (now a b : ℕ) (p : Pool)
    → ((q : Pool) × (add_friend now a b p ≡ ok tt q)
        × ((x y : ℕ)
            → are_friends x y q.db
              ≡ (if (a == x && b == y) || (b == x && a == y) then true else are_friends x y p.db)))
      ⊎ ((e : DbError) × (q : Pool) × (add_friend now a b p ≡ err e q) × (q.db ≡ p.db))
add_friend_lem now a b p = elim (Outcome-cases (add_friend now a b p)) [
  | inl (u, q, e) ↦ inl (q, e, λ x y. add_friend_ok now a b p q x y e)
  | inr (x, q, e) ↦ inr (x, q, e, add_friend_err now a b p q x e)
]
