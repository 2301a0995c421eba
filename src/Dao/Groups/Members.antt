-- ===== src/Dao/Groups/Members.antt =====
-- src/dao.rs: who is a member after join_group and leave_group.
use myx_im.Base.{
  ℕ, ◌≡◌, true, false, ◌&&◌, not, List, [], ◌∷◌, ◌==◌, if◌then◌else◌, arith, Bool-cases, any,
  filter, inl, inr,
}
use myx_im.Base.Outcome.{ok, state_of}
use myx_im.Db.{Db, Membership}
use myx_im.Db.Statement.{healthy}
use myx_im.Dao.Groups.{is_membership, is_member, can_belong, join_group, leave_group}

-- join_group answers true exactly for a user who was no member, and afterwards the user is one;
-- nobody else's membership changes. The group and the user exist, and no statement fails.
join_group_lem :
    (now gid uid : ℕ) (db : Db)
    → can_belong gid uid db ≡ true
    → (db' : Db) × (join_group now gid uid (healthy db)
        ≡ ok (not (is_member gid uid db)) (healthy db'))
      × ((g u : ℕ) → is_member g u db' ≡ (if gid == g && uid == u then true else is_member g u db))
unfolding join_group
join_group_lem now gid uid db c = elim (Bool-cases (is_member gid uid db)) [
  | inl e ↦ (db, rw (e, join_group), λ g u. ground arith)
  | inr e ↦ (
    record db { members = record { group_id = gid; user_id = uid; joined_at = now } ∷ db.members },
    rw (e, c, join_group),
    λ g u. ground arith,
  )
]

without :
    (gid uid g u : ℕ) (ms : List Membership)
    → any (is_membership g u) (filter (λ m. not (is_membership gid uid m)) ms)
      ≡ (if gid == g && uid == u then false else any (is_membership g u) ms)
without gid uid g u [] = ground arith
without gid uid g u (m ∷ ms) = ground (arith, without gid uid g u ms)

-- After leave_group the user is no member, and everybody else is as before. No statement fails.
leave_group_lem :
    (gid uid g u : ℕ) (db : Db)
    → is_member g u (state_of (leave_group gid uid (healthy db))).db
      ≡ (if gid == g && uid == u then false else is_member g u db)
unfolding leave_group
leave_group_lem gid uid g u db = without gid uid g u db.members

-- For a user and a group that exist, where no statement fails, join_group succeeds, answers whether
-- the user was new, and makes the user a member; a leave_group after it makes the user none. Neither
-- changes any other membership.
join_group-leave_group :
    (now gid uid : ℕ) (db : Db)
    → can_belong gid uid db ≡ true
    → (db' : Db) × (join_group now gid uid (healthy db)
        ≡ ok (not (is_member gid uid db)) (healthy db'))
      × ((g u : ℕ) → is_member g u db' ≡ (if gid == g && uid == u then true else is_member g u db))
      × ((g u : ℕ)
          → is_member g u (state_of (leave_group gid uid (healthy db'))).db
            ≡ (if gid == g && uid == u then false else is_member g u db))
join_group-leave_group now gid uid db c =
    let (db', e, h) = join_group_lem now gid uid db c in
    (db', e, h, λ g u. ground (arith, leave_group_lem gid uid g u db', h g u))
