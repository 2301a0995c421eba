-- ===== src/Dao/GroupRead/CaughtUp.antt =====
-- src/dao.rs: what mark_group_read_and_get_delta leaves for get_unseen_group_counts and
-- get_unseen_group_messages.
use myx_im.Base.{
  ℕ, ◌≡◌, refl, ◌∙◌, ap, true, false, ◌&&◌, none, List, [], ◌∷◌, inl, inr, any, arith, Bool-cases,
  find?, filter, ◌==◌, ==_iff, Option-cases, sort_by,
}
use myx_im.Base.Outcome.{ok, state_of}
use myx_im.Base.Int.{pos}
use myx_im.Base.Rows.{All, count_if_none}
use myx_im.Base.Sorted.{All-take, All-sort_by}
use myx_im.Model.{GroupHistoryItem}
use myx_im.Dao.Select.{user_row}
use myx_im.Db.{Db, GroupMessage}
use myx_im.Db.Statement.{healthy}
use myx_im.Dao.Groups.{can_belong}
use myx_im.Dao.GroupMessages.{
  is_unread, read_up_to, get_unseen_group_counts, get_unseen_group_messages, join_senders,
  earlier_first,
}
use myx_im.Dao.GroupMessages.Unseen.{is_unseen, counts_for, entry, get_unseen_group_counts_lem}
use myx_im.Dao.GroupRead.{mark_group_read_and_get_delta}
use myx_im.Dao.GroupRead.Counts.{mark_cases}
use myx_im.Dao.GroupRead.Again.{
  IsUpToDate, IsBounded, IsBounded-tail, IsBounded-head, max_id-update, advanced-IsUpToDate,
  first-IsUpToDate,
}

mark_group_read-IsUpToDate :
    (gid uid : ℕ) (db : Db)
    → can_belong gid uid db ≡ true
    → IsUpToDate gid uid (state_of (mark_group_read_and_get_delta gid uid (healthy db))).db
mark_group_read-IsUpToDate gid uid db b =
    mark_cases (IsUpToDate gid uid) gid uid db (λ e n h. cc) (λ c r. cc)
      (λ last e c.
        advanced-IsUpToDate gid uid last db e _ (max_id-update gid _ db.group_messages) c)
      (λ last e c. first-IsUpToDate gid uid last db e _ (max_id-update gid _ db.group_messages))

-- A message of the group is not past the cursor.
not_unread :
    (gid uid : ℕ) (db : Db) (m : GroupMessage) (ms : List GroupMessage)
    → IsBounded gid (read_up_to uid gid db.group_read_cursors) (m ∷ ms)
    → (m.group_id == gid) ≡ true
    → is_unread uid db m ≡ false
not_unread gid uid db m ms b e =
    rw ((==_iff m.group_id gid).0 e)
      (ground (arith, IsBounded-head gid (read_up_to uid gid db.group_read_cursors) m ms b e))

unread-none :
    (gid uid : ℕ) (db : Db) (ms : List GroupMessage)
    → IsBounded gid (read_up_to uid gid db.group_read_cursors) ms
    → any (λ m. m.group_id == gid && is_unseen uid db m) ms ≡ false
unread-none gid uid db [] b = refl
unread-none gid uid db (m ∷ ms) b =
    ground
      (arith, not_unread gid uid db m ms b, unread-none gid uid db ms (IsBounded-tail gid _ m ms b))

unread-All :
    (gid uid : ℕ) (db : Db) (ms : List GroupMessage)
    → IsBounded gid (read_up_to uid gid db.group_read_cursors) ms
    → All (λ m. (m.group_id == gid) ≡ false) (filter (is_unread uid db) ms)
unread-All gid uid db [] b = tt
unread-All gid uid db (m ∷ ms) b =
    let rest = unread-All gid uid db ms (IsBounded-tail gid _ m ms b) in
    elim (Bool-cases (is_unread uid db m)) [
      | inl e ↦ rw e (ground (arith, not_unread gid uid db m ms b), rest)
      | inr e ↦ rw e rest
    ]

joined-All :
    (gid : ℕ) (db : Db) (ms : List GroupMessage)
    → All (λ m. (m.group_id == gid) ≡ false) ms
    → All (λ i. (i.group_id == gid) ≡ false) (join_senders db ms)
joined-All gid db [] h = tt
joined-All gid db (m ∷ ms) h = elim (Option-cases (user_row m.from_uid db.users)) [
  | inl e ↦ rw (All, e) (joined-All gid db ms h.1)
  | inr (u, e) ↦ rw (All, e) (h.0, joined-All gid db ms h.1)
]

-- Where no statement fails, after a user has marked a group as read, both of which are there,
-- get_unseen_group_counts has no entry for the group, and get_unseen_group_messages, with a limit that
-- is not negative, no message of it.
pub mark_group_read-unseen :
    (gid uid n : ℕ) (db : Db)
    → can_belong gid uid db ≡ true
    → let after = (state_of (mark_group_read_and_get_delta gid uid (healthy db))).db in
      ((counts : List (ℕ × ℕ)) × (get_unseen_group_counts uid (healthy after)
          ≡ ok counts (healthy after))
        × (find? (counts_for gid) counts ≡ none))
      × ((items : List GroupHistoryItem) × (get_unseen_group_messages uid (pos n) (healthy after)
            ≡ ok items (healthy after))
          × All (λ i. (i.group_id == gid) ≡ false) items)
unfolding get_unseen_group_messages
mark_group_read-unseen gid uid n db b =
    let after = (state_of (mark_group_read_and_get_delta gid uid (healthy db))).db in
    let u = mark_group_read-IsUpToDate gid uid db b in
    let (counts, e, f, g) = get_unseen_group_counts_lem uid after in
    let unread = filter (is_unread uid after) after.group_messages in
    (
      (
        counts,
        e,
        f gid
            ∙ ap (entry gid) (
                count_if_none _ after.group_messages
                  (unread-none gid uid after after.group_messages (λ n h. (u n h).1))),
      ),
      (
        _,
        refl,
        All-take _ n (join_senders after (sort_by earlier_first unread)) (
            joined-All gid after (sort_by earlier_first unread) (
              All-sort_by _ earlier_first unread
                (unread-All gid uid after after.group_messages (λ n h. (u n h).1)))),
      ),
    )
