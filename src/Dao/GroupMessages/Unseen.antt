-- ===== src/Dao/GroupMessages/Unseen.antt =====
-- src/dao.rs, get_unseen_group_counts: the count of each group.
use myx_im.Base.{
  ℕ, ◌+◌, ◌≡◌, refl, ◌∙◌, ap, Bool, ◌&&◌, ◌||◌, Option, none, some, List, [], ◌∷◌, filter, find?,
  any, count_if, ◌==◌, if◌then◌else◌, arith, Bool-cases, inl, inr,
}
use myx_im.Base.Outcome.{ok}
use myx_im.Base.Unique.{Unique}
use myx_im.Db.{Db, GroupMessage}
use myx_im.Db.Statement.{healthy}
use myx_im.Dao.Groups.{is_member}
use myx_im.Dao.GroupMessages.{bump_count, count_by_group, is_unread, get_unseen_group_counts}

abbrev pub counts_for : ℕ → ℕ × ℕ → Bool
counts_for gid c = c.0 == gid

-- The entry of a group with `n` messages; there is none for no message.
abbrev pub entry : ℕ → ℕ → Option (ℕ × ℕ)
entry gid n = if n == 0 then none else some (gid, n)

find?-bump_count :
    (gid g n : ℕ) (cs : List (ℕ × ℕ))
    → find? (counts_for gid) cs ≡ entry gid n
    → find? (counts_for gid) (bump_count g cs) ≡ entry gid ((if g == gid then 1 else 0) + n)
find?-bump_count gid g n [] h = ground arith
find?-bump_count gid g n ((h, k) ∷ cs) e = elim (Bool-cases (h == gid)) [
  | inl x ↦ ground arith
  | inr x ↦ ground (arith, find?-bump_count gid g n cs (ground arith))
]

find?-count_by_group :
    (gid : ℕ) (ms : List GroupMessage)
    → find? (counts_for gid) (count_by_group ms) ≡ entry gid (count_if (λ m. m.group_id == gid) ms)
find?-count_by_group gid [] = refl
find?-count_by_group gid (m ∷ ms) =
    find?-bump_count gid m.group_id _ (count_by_group ms) (find?-count_by_group gid ms)

any-bump_count :
    (gid g : ℕ) (cs : List (ℕ × ℕ))
    → any (counts_for gid) (bump_count g cs) ≡ (g == gid || any (counts_for gid) cs)
any-bump_count gid g [] = refl
any-bump_count gid g ((h, k) ∷ cs) = ground (arith, any-bump_count gid g cs)

abbrev pub same_group : ℕ × ℕ → ℕ × ℕ → Bool
same_group c d = d.0 == c.0

bump_count-Unique :
    (g : ℕ) (cs : List (ℕ × ℕ)) → Unique same_group cs → Unique same_group (bump_count g cs)
bump_count-Unique g [] u = (refl, tt)
bump_count-Unique g ((h, k) ∷ cs) u = elim (Bool-cases (h == g)) [
  | inl e ↦ rw e u
  | inr e ↦ rw e ((any-bump_count h g cs ∙ ground (arith, e, u.0)), bump_count-Unique g cs u.1)
]

count_by_group-Unique : (ms : List GroupMessage) → Unique same_group (count_by_group ms)
count_by_group-Unique [] = tt
count_by_group-Unique (m ∷ ms) = bump_count-Unique m.group_id _ (count_by_group-Unique ms)

-- A message of a group that the user is a member of, past the user's cursor there.
abbrev pub is_unseen : ℕ → Db → GroupMessage → Bool
is_unseen uid db m = is_member m.group_id uid db && is_unread uid db m

count-filter :
    (gid uid : ℕ) (db : Db) (ms : List GroupMessage)
    → count_if (λ m. m.group_id == gid) (filter (is_unseen uid db) ms)
      ≡ count_if (λ m. m.group_id == gid && is_unseen uid db m) ms
count-filter gid uid db [] = refl
count-filter gid uid db (m ∷ ms) = elim (Bool-cases (is_unseen uid db m)) [
  | inl e ↦ rw e (ground (arith, count-filter gid uid db ms))
  | inr e ↦ rw e (ground (arith, count-filter gid uid db ms))
]

-- Where no statement fails, get_unseen_group_counts returns one entry for each group that the user is
-- a member of and that has messages past the user's cursor there, with their number, and no other.
pub get_unseen_group_counts_lem :
    (uid : ℕ) (db : Db)
    → (counts : List (ℕ × ℕ)) × (get_unseen_group_counts uid (healthy db) ≡ ok counts (healthy db))
      × ((gid : ℕ)
          → find? (counts_for gid) counts
            ≡ entry gid (count_if (λ m. m.group_id == gid && is_unseen uid db m) db.group_messages))
      × Unique same_group counts
unfolding get_unseen_group_counts
get_unseen_group_counts_lem uid db = (
  _,
  refl,
  λ gid. find?-count_by_group gid _ ∙ ap (entry gid) (count-filter gid uid db db.group_messages),
  count_by_group-Unique (filter (is_unseen uid db) db.group_messages),
)
