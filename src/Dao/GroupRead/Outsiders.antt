-- ===== src/Dao/GroupRead/Outsiders.antt =====
-- src/dao.rs, mark_group_read_and_get_delta: the caller need not be a member of the group, while
-- `read_count` is meant to be the number of members who have read a message.
use myx_im.Base.{
  ℕ, ◌≡◌, refl, sym, ◌∙◌, subst, true, false, ◌&&◌, some, List, [], ◌∷◌, inl, inr, any, count_if,
  arith, Bool-cases, update_where, ◌==◌,
}
use mathlib.Core.Option.{some-injective}
use myx_im.Base.Outcome.{state_of}
use myx_im.Base.Rows.{All}
use myx_im.Db.{Db, GroupMessage, GroupReadCursor}
use myx_im.Db.Statement.{healthy}
use myx_im.Dao.Groups.{can_belong, is_member}
use myx_im.Dao.GroupMessages.{cursor_of, read_up_to}
use myx_im.Dao.GroupRead.{advance, in_delta, count_read, max_id, mark_group_read_and_get_delta}
use myx_im.Dao.GroupRead.Cursors.{has_read}
use myx_im.Dao.GroupRead.Counts.{with_reads, mark_cases}

-- The number of other members of the group whose cursor has passed the message.
abbrev pub member_readers : Db → List GroupReadCursor → GroupMessage → ℕ
member_readers db cs m = count_if (λ c. has_read m c && is_member m.group_id c.user_id db) cs

-- Each read count is that number, as the comments of init.sql and doc/api.md say.
abbrev pub CountsMembers : Db → Type 0
CountsMembers db =
    All (λ m. m.read_count ≡ member_readers db db.group_read_cursors m) db.group_messages

not_member :
    (gid uid g u : ℕ) (db : Db)
    → is_member gid uid db ≡ false
    → g ≡ gid
    → u ≡ uid
    → is_member g u db ≡ false
not_member gid uid g u db out p q = rw (p, q) out

-- A cursor of one who is no member is not among those of the members, wherever it points.
outside :
    (gid uid : ℕ) (db : Db) (m : GroupMessage) (c : GroupReadCursor)
    → is_member gid uid db ≡ false
    → cursor_of uid gid c ≡ true
    → (has_read m c && is_member m.group_id c.user_id db) ≡ false
outside gid uid db m c out e = elim (Bool-cases (c.group_id == m.group_id)) [
  | inl k ↦
      ground (arith, not_member gid uid m.group_id c.user_id db out (ground arith) (ground arith))
  | inr k ↦ ground (arith, k)
]

member_readers-update :
    (gid uid last : ℕ) (db : Db) (m : GroupMessage) (cs : List GroupReadCursor)
    → is_member gid uid db ≡ false
    → member_readers db (update_where (cursor_of uid gid) (advance last) cs) m
      ≡ member_readers db cs m
member_readers-update gid uid last db m [] out = refl
member_readers-update gid uid last db m (c ∷ cs) out = elim (Bool-cases (cursor_of uid gid c)) [
  | inl e ↦
      rw (e, outside gid uid db m c out e, outside gid uid db m (advance last c) out e)
        (omega (arith, member_readers-update gid uid last db m cs out))
  | inr e ↦ rw e (omega (arith, member_readers-update gid uid last db m cs out))
]

-- A message of the delta is counted once more, with as many readers among the members as before.
miscounted :
    (gid uid old last : ℕ) (db : Db) (cs cs' : List GroupReadCursor)
    → ((m : GroupMessage) → member_readers db cs' m ≡ member_readers db cs m)
    → (ms : List GroupMessage) → All (λ m. m.read_count ≡ member_readers db cs m) ms
    → any (in_delta gid old last uid) ms ≡ true
    → ¬ All
        (λ m. m.read_count ≡ member_readers db cs' m)
        (update_where (in_delta gid old last uid) count_read ms)
miscounted gid uid old last db cs cs' h [] a e b = cc
miscounted gid uid old last db cs cs' h (m ∷ ms) a e b =
    elim (Bool-cases (in_delta gid old last uid m)) [
      | inl d ↦ ground (arith, h m, d)
      | inr d ↦ miscounted gid uid old last db cs cs' h ms a.1 (ground arith) b.1
    ]

-- The bug: where no statement fails, if each read count is the number of other members who have read
-- the message, and a user with an account who is no member of the group marks it as read, with a
-- message in it that is new to that user, then this is so no longer.
pub outsider_counted :
    (gid uid last : ℕ) (db : Db)
    → CountsMembers db
    → is_member gid uid db ≡ false
    → max_id gid db.group_messages ≡ some last
    → can_belong gid uid db ≡ true
    → any (in_delta gid (read_up_to uid gid db.group_read_cursors) last uid) db.group_messages
      ≡ true
    → ¬ CountsMembers (state_of (mark_group_read_and_get_delta gid uid (healthy db))).db
outsider_counted gid uid last db v out e b n =
    mark_cases (λ q. ¬ CountsMembers q) gid uid db (λ none_there. cc) (λ c refused. cc)
      (λ latest h c.
        wrong latest _ h (λ m. member_readers-update gid uid latest db m db.group_read_cursors out))
      (λ latest h c.
        wrong latest
          (record { user_id = uid; group_id = gid; last_read_msg_id = latest }
            ∷ db.group_read_cursors)
          h (member_readers-first latest))
  where
    wrong :
        (latest : ℕ) (cs : List GroupReadCursor)
        → max_id gid db.group_messages ≡ some latest
        → ((m : GroupMessage) → member_readers db cs m ≡ member_readers db db.group_read_cursors m)
        → ¬ CountsMembers (with_reads gid uid latest cs db)
    wrong latest cs h same w =
        miscounted gid uid (read_up_to uid gid db.group_read_cursors) latest db
          db.group_read_cursors cs same db.group_messages v
          (subst
            (λ l.
              any (in_delta gid (read_up_to uid gid db.group_read_cursors) l uid) db.group_messages
              ≡ true)
            (some-injective last latest (sym e ∙ h)) n)
          w

    member_readers-first :
        (latest : ℕ) (m : GroupMessage)
        → member_readers db
            (record { user_id = uid; group_id = gid; last_read_msg_id = latest }
              ∷ db.group_read_cursors)
            m
          ≡ member_readers db db.group_read_cursors m
    member_readers-first latest m =
        rw
          (outside gid uid db m
            (record { user_id = uid; group_id = gid; last_read_msg_id = latest }) out
            (ground arith))
          (omega arith)
