-- ===== src/Dao/Delete/NoTrace.antt =====
-- src/dao.rs, delete_user: nothing refers to the user afterwards.
use myx_im.Base.{
  ℕ, ◌≡◌, refl, Bool, true, false, not, ◌||◌, List, [], ◌∷◌, arith, any, map, inl, inr, Bool-cases,
  filter, ◌==◌, if◌then◌else◌,
}
use myx_im.Base.Outcome.{ok, state_of}
use myx_im.Base.Rows.{any-filter-not}
use myx_im.Db.{Db, Group}
use myx_im.Db.Statement.{healthy}
use myx_im.Dao.Delete.{
  delete_user, delete_groups, delete_group, delete_sent, owned_groups, is_party, delete_cursors,
  delete_account, delete_chats, is_referenced,
}

-- No table mentions the user.
pub record NoTrace (uid : ℕ) (db : Db) : Type 0 where
  pub account : any (λ u. u.id == uid) db.users ≡ false
  pub chats : any (is_party uid) db.chat_messages ≡ false
  pub cursors : any (λ c. c.user_id == uid || c.peer_uid == uid) db.read_cursors ≡ false
  pub owned : any (λ g. g.owner_uid == uid) db.groups ≡ false
  pub memberships : any (λ m. m.user_id == uid) db.members ≡ false
  pub sent : any (λ m. m.from_uid == uid) db.group_messages ≡ false
  pub group_cursors : any (λ c. c.user_id == uid) db.group_read_cursors ≡ false
  pub friendships : any (λ f. f.user_id == uid || f.friend_id == uid) db.friends ≡ false

-- The database without some groups.
abbrev without : List ℕ → Db → Db
without [] db = db
without (gid ∷ gids) db = without gids (state_of (delete_group gid db))

delete_groups-without :
    (gids : List ℕ) (db : Db) → delete_groups gids (healthy db) ≡ ok tt (healthy (without gids db))
unfolding delete_groups
delete_groups-without [] db = refl
delete_groups-without (gid ∷ gids) db = delete_groups-without gids (state_of (delete_group gid db))

-- Every group of the owner is in the list.
abbrev Covers : ℕ → List ℕ → List Group → Type 0
Covers uid gids [] = Unit {0}
Covers uid gids (g ∷ gs) =
    (not (g.owner_uid == uid) || any (λ gid. g.id == gid) gids ≡ true) × Covers uid gids gs

Covers-cons :
    (uid gid : ℕ) (gids : List ℕ) (gs : List Group)
    → Covers uid gids gs
    → Covers uid (gid ∷ gids) gs
Covers-cons uid gid gids [] c = tt
Covers-cons uid gid gids (g ∷ gs) c = (ground arith, Covers-cons uid gid gids gs c.1)

Covers-owned :
    (uid : ℕ) (gs : List Group)
    → Covers uid (map (λ g. g.id) (filter (λ g. g.owner_uid == uid) gs)) gs
Covers-owned uid [] = tt
Covers-owned uid (g ∷ gs) = (ground arith, grown (Covers-owned uid gs) (g.owner_uid == uid))
  where
    grown :
        Covers uid (map (λ h. h.id) (filter (λ h. h.owner_uid == uid) gs)) gs
        → (b : Bool)
        → Covers uid
            (map
              (λ h. h.id)
              (if b
                then g ∷ filter (λ h. h.owner_uid == uid) gs
                else filter (λ h. h.owner_uid == uid) gs))
            gs
    grown c true = Covers-cons uid g.id (map (λ h. h.id) (filter (λ h. h.owner_uid == uid) gs)) gs c
    grown c false = c

Covers-delete :
    (uid gid : ℕ) (gids : List ℕ) (gs : List Group)
    → Covers uid (gid ∷ gids) gs
    → Covers uid gids (filter (λ g. not (g.id == gid)) gs)
Covers-delete uid gid gids [] c = tt
Covers-delete uid gid gids (g ∷ gs) c = elim (Bool-cases (g.id == gid)) [
  | inl e ↦ rw e (Covers-delete uid gid gids gs c.1)
  | inr e ↦ rw e (ground (arith, c.0, e), Covers-delete uid gid gids gs c.1)
]

not-owned :
    (uid : ℕ) (gs : List Group) → Covers uid [] gs → any (λ g. g.owner_uid == uid) gs ≡ false
not-owned uid [] c = refl
not-owned uid (g ∷ gs) c = ground (arith, not-owned uid gs c.1)

without-owned :
    (uid : ℕ) (gids : List ℕ) (db : Db)
    → Covers uid gids db.groups
    → any (λ g. g.owner_uid == uid) (without gids db).groups ≡ false
without-owned uid [] db c = not-owned uid db.groups c
without-owned uid (gid ∷ gids) db c =
    without-owned uid gids (state_of (delete_group gid db)) (Covers-delete uid gid gids db.groups c)

without-chats : (gids : List ℕ) (db : Db) → (without gids db).chat_messages ≡ db.chat_messages
without-chats [] db = refl
without-chats (gid ∷ gids) db = without-chats gids (state_of (delete_group gid db))

-- The database before the last statement.
abbrev before_account : ℕ → Db → Db
before_account uid db =
    let emptied = without (owned_groups uid db) (state_of (delete_chats uid db)) in
    state_of (delete_cursors uid (state_of (delete_sent uid emptied)))

unreferenced : (uid : ℕ) (db : Db) → is_referenced uid (before_account uid db) ≡ false
unreferenced uid db = ground (
  arith,
  without-owned uid (owned_groups uid db) (state_of (delete_chats uid db))
      (Covers-owned uid db.groups),
  any-filter-not (λ m. m.from_uid == uid)
      (without (owned_groups uid db) (state_of (delete_chats uid db))).group_messages,
)

-- delete_user succeeds on every database where no statement fails: its last statement is never
-- refused for a row that still refers to the user, and afterwards no table mentions the user.
pub delete_user-NoTrace :
    (uid : ℕ) (db : Db)
    → (db' : Db) × (delete_user uid (healthy db) ≡ ok tt (healthy db')) × NoTrace uid db'
unfolding delete_user delete_groups
delete_user-NoTrace uid db = (
  state_of (delete_account uid (before_account uid db)),
  rw (
    delete_groups-without (owned_groups uid db) (state_of (delete_chats uid db)),
    unreferenced uid db,
    delete_user,
  ),
  rw (unreferenced uid db) (record {
    account = any-filter-not _ db1.users;
    chats =
        rw (without-chats (owned_groups uid db) (state_of (delete_chats uid db)))
          (any-filter-not (is_party uid) db.chat_messages);
    cursors = any-filter-not _ db1.read_cursors;
    owned =
        without-owned uid (owned_groups uid db) (state_of (delete_chats uid db))
          (Covers-owned uid db.groups);
    memberships = any-filter-not _ db1.members;
    sent = any-filter-not _ db1.group_messages;
    group_cursors = any-filter-not _ db1.group_read_cursors;
    friendships = any-filter-not _ db1.friends;
  }),
)
  where
    db1 : Db
    db1 = without (owned_groups uid db) (state_of (delete_chats uid db))
