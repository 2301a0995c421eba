-- ===== src/Dao/Groups/Orphan.antt =====
-- src/dao.rs, create_group runs its insertions without a transaction: what is left when the
-- connection fails between them.
use text.Mathlib.TextPositions.{eq_refl}
use myx_im.Base.{ℕ, ◌≡◌, String, true, false, none, some, [], ◌∷◌, arith, any}
use myx_im.Base.Outcome.{err, state_of}
use myx_im.Base.Rows.{find?-none}
use myx_im.Db.{Db}
use myx_im.Db.Statement.{Pool, healthy, anyhow}
use myx_im.Dao.Users.{varchar, has_user}
use myx_im.Dao.Groups.{owns_name, has_group, is_member, create_group}

-- The duplicate check and the insertion of the group pass, that of the owner fails.
abbrev pub fails_at_owner : String → Db → Pool
fails_at_owner msg db = record { db = db; faults = none ∷ none ∷ some msg ∷ [] }

-- The bug: where the insertion of the owner fails, the group stays without its owner as a member,
-- and every later attempt of the owner to create it is refused as a duplicate.
pub create_group_orphan :
    (now gid owner now' gid' : ℕ) (name msg : String) (db : Db)
    → varchar 50 name ≡ some name
    → has_group gid db.groups ≡ false
    → any (owns_name owner name) db.groups ≡ false
    → has_user owner db.users ≡ true
    → is_member gid owner db ≡ false
    → let after = (state_of (create_group now gid name owner (fails_at_owner msg db))).db in
      (has_group gid after.groups ≡ true)
      × (is_member gid owner after ≡ false)
      × (create_group now' gid' name owner (healthy after)
          ≡ err (anyhow "group name already exists for this owner") (healthy after))
unfolding create_group
create_group_orphan now gid owner now' gid' name msg db short fresh free user out =
    rw (find?-none (owns_name owner name) db.groups free, short, fresh, free, user, create_group)
      (ground arith, ground arith, ground (arith, eq_refl name))
