-- ===== src/Dao/GroupMessages/Outsiders.antt =====
-- src/dao.rs, get_unseen_group_messages: its query does not ask for a membership.
use myx_im.Base.{
  ℕ, ◌≤◌, ◌≡◌, refl, ◌∙◌, true, false, ◌&&◌, List, [], ◌∷◌, any, filter, sort_by, length, count_if,
  ◌==◌, arith, Option-cases, inl, inr,
}
use myx_im.Base.Int.{pos}
use myx_im.Base.Outcome.{ok}
use myx_im.Base.Rows.{is_some-find?, any-filter, length-filter}
use myx_im.Base.Sorted.{any-sort_by, length-sort_by, take_of_length-le}
use myx_im.Model.{GroupHistoryItem}
use myx_im.Db.{Db, GroupMessage}
use myx_im.Db.Statement.{healthy}
use myx_im.Dao.Select.{user_row}
use myx_im.Dao.Users.{has_user}
use myx_im.Dao.Groups.{is_member}
use myx_im.Dao.GroupMessages.{join_senders, earlier_first, is_unread, get_unseen_group_messages}

any-join_senders :
    (gid : ℕ) (db : Db) (ms : List GroupMessage)
    → any (λ i. i.group_id == gid) (join_senders db ms)
      ≡ any (λ m. has_user m.from_uid db.users && m.group_id == gid) ms
any-join_senders gid db [] = refl
any-join_senders gid db (m ∷ ms) = elim (Option-cases (user_row m.from_uid db.users)) [
  | inl e ↦
      ground
        (arith, e, is_some-find? (λ u. u.id == m.from_uid) db.users, any-join_senders gid db ms)
  | inr (u, e) ↦
      ground
        (arith, e, is_some-find? (λ u. u.id == m.from_uid) db.users, any-join_senders gid db ms)
]

length-join_senders-le :
    (db : Db) (ms : List GroupMessage) → length (join_senders db ms) ≤ length ms
length-join_senders-le db [] = omega arith
length-join_senders-le db (m ∷ ms) = ground (arith, length-join_senders-le db ms)

-- Where a group that the user is no member of has a message after the user's cursor (of a sender
-- who has an account), the messages for the user's next connection include one of that group. The
-- limit is not below the number of messages after the user's cursors.
pub get_unseen_group_messages-outsider :
    (uid gid n : ℕ) (db : Db)
    → is_member gid uid db ≡ false
    → any
        (λ m. is_unread uid db m && (has_user m.from_uid db.users && m.group_id == gid))
        db.group_messages
      ≡ true
    → count_if (is_unread uid db) db.group_messages ≤ n
    → (items : List GroupHistoryItem) × (get_unseen_group_messages uid (pos n) (healthy db)
        ≡ ok items (healthy db))
      × (any (λ i. i.group_id == gid) items ≡ true)
unfolding get_unseen_group_messages
get_unseen_group_messages-outsider uid gid n db out h fits =
    let unread = filter (is_unread uid db) db.group_messages in
    let items = join_senders db (sort_by earlier_first unread) in
    (
      items,
      rw (
          take_of_length-le n items (
            omega (
              arith,
              length-join_senders-le db (sort_by earlier_first unread),
              length-sort_by earlier_first unread,
              length-filter (is_unread uid db) db.group_messages,
            ))),
      any-join_senders gid db (sort_by earlier_first unread)
          ∙ any-sort_by earlier_first (λ m. has_user m.from_uid db.users && m.group_id == gid)
              unread
          ∙ any-filter (is_unread uid db) (λ m. has_user m.from_uid db.users && m.group_id == gid)
              db.group_messages
          ∙ h,
    )
