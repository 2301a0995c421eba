-- ===== src/Dao/GroupRead/Again.antt =====
-- Marking a group as read twice in a row (src/dao.rs, mark_group_read_and_get_delta).
use myx_im.Base.{
  ℕ, ◌≤◌, ◌≡◌, refl, ◌∙◌, Bool, true, false, some, List, [], ◌∷◌, inl, inr, any, arith, Bool-cases,
  Option-cases, update_where, if◌then◌else◌, leb, ◌==◌,
}
use myx_im.Base.Outcome.{ok, state_of}
use myx_im.Base.Rows.{update_where_none, count_if_none, any-update_where}
use myx_im.Db.{Db, GroupMessage, GroupReadCursor}
use myx_im.Db.Statement.{healthy}
use myx_im.Dao.Groups.{can_belong}
use myx_im.Dao.GroupMessages.{cursor_of, read_up_to}
use myx_im.Dao.GroupRead.{advance, in_delta, count_read, max_id, mark_group_read_and_get_delta}
use myx_im.Dao.GroupRead.Cursors.{KeysDistinct, same_keys, update-KeysDistinct}
use myx_im.Dao.GroupRead.Counts.{with_reads, mark_cases}

-- Nothing of the group is new to the user: the latest message is not after the cursor.
abbrev pub IsUpToDate : ℕ → ℕ → Db → Type 0
IsUpToDate gid uid db =
    (last : ℕ)
    → max_id gid db.group_messages ≡ some last
    → (any (cursor_of uid gid) db.group_read_cursors ≡ true)
      × (last ≤ read_up_to uid gid db.group_read_cursors)

pub max_id-update :
    (gid : ℕ) (p : GroupMessage → Bool) (ms : List GroupMessage)
    → max_id gid (update_where p count_read ms) ≡ max_id gid ms
max_id-update gid p [] = refl
max_id-update gid p (m ∷ ms) = ground (arith, max_id-update gid p ms)

pub read_up_to-advance :
    (uid gid last : ℕ) (cs : List GroupReadCursor)
    → any (cursor_of uid gid) cs ≡ true
    → last ≤ read_up_to uid gid (update_where (cursor_of uid gid) (advance last) cs)
read_up_to-advance uid gid last [] h = absurd (ground arith)
read_up_to-advance uid gid last (c ∷ cs) h = ground (arith, read_up_to-advance uid gid last cs)

-- An advance to where the user's cursor is already.
pub advance_again :
    (uid gid last : ℕ) (cs : List GroupReadCursor)
    → KeysDistinct cs
    → last ≤ read_up_to uid gid cs
    → update_where (cursor_of uid gid) (advance last) cs ≡ cs
advance_again uid gid last [] d h = refl
advance_again uid gid last (c ∷ cs) d h = elim (Bool-cases (cursor_of uid gid c)) [
  | inl e ↦
      rw (e, update_where_none (cursor_of uid gid) (advance last) cs (same_keys uid gid c cs e d.0))
        (ground arith)
  | inr e ↦ rw (e, advance_again uid gid last cs d.1 (ground arith))
]

-- No message of the group is after `old`.
abbrev pub IsBounded : ℕ → ℕ → List GroupMessage → Type 0
IsBounded gid old ms = (n : ℕ) → max_id gid ms ≡ some n → n ≤ old

pub IsBounded-tail :
    (gid old : ℕ) (m : GroupMessage) (ms : List GroupMessage)
    → IsBounded gid old (m ∷ ms)
    → IsBounded gid old ms
IsBounded-tail gid old m ms b n e = elim (Bool-cases (m.group_id == gid)) [
  | inl g ↦ ground (arith, b (if leb m.id n then n else m.id))
  | inr g ↦ ground (arith, b n)
]

pub IsBounded-head :
    (gid old : ℕ) (m : GroupMessage) (ms : List GroupMessage)
    → IsBounded gid old (m ∷ ms)
    → (m.group_id == gid) ≡ true
    → m.id ≤ old
IsBounded-head gid old m ms b g = elim (Option-cases (max_id gid ms)) [
  | inl e ↦ ground (arith, b m.id)
  | inr (n, e) ↦ ground (arith, b (if leb m.id n then n else m.id))
]

no_delta :
    (gid old last uid : ℕ) (ms : List GroupMessage)
    → IsBounded gid old ms
    → any (in_delta gid old last uid) ms ≡ false
no_delta gid old last uid [] b = refl
no_delta gid old last uid (m ∷ ms) b = ground (
  arith,
  IsBounded-head gid old m ms b,
  no_delta gid old last uid ms (IsBounded-tail gid old m ms b),
)

-- A user who is up to date gets no delta, and nothing changes.
pub up_to_date :
    (gid uid : ℕ) (db : Db)
    → KeysDistinct db.group_read_cursors
    → IsUpToDate gid uid db
    → mark_group_read_and_get_delta gid uid (healthy db) ≡ ok [] (healthy db)
unfolding mark_group_read_and_get_delta
up_to_date gid uid db d u = elim (Option-cases (max_id gid db.group_messages)) [
  | inl e ↦ rw (e, mark_group_read_and_get_delta)
  | inr (last, e) ↦
      let none_new : any (in_delta gid (read_up_to uid gid db.group_read_cursors) last uid)
            db.group_messages
          ≡ false =
        no_delta gid (read_up_to uid gid db.group_read_cursors) last uid db.group_messages
          (λ n h. ground (arith, (u n h).1)) in
      rw (
        e,
        (u last e).0,
        advance_again uid gid last db.group_read_cursors d (u last e).1,
        count_if_none _ db.group_messages none_new,
        update_where_none _ count_read db.group_messages none_new,
        mark_group_read_and_get_delta,
      )
]

module _ (gid uid last : ℕ) (db : Db) (latest : max_id gid db.group_messages ≡ some last) where
  -- After an advance of the user's cursor to the latest message the user is up to date.
  pub advanced-IsUpToDate :
      (ms : List GroupMessage)
      → max_id gid ms ≡ max_id gid db.group_messages
      → any (cursor_of uid gid) db.group_read_cursors ≡ true
      → IsUpToDate gid uid (record db {
        group_read_cursors = update_where (cursor_of uid gid) (advance last) db.group_read_cursors;
        group_messages = ms;
      })
  advanced-IsUpToDate ms same_max e n h = (
    any-update_where (cursor_of uid gid) (cursor_of uid gid) (advance last) db.group_read_cursors
          (λ c. refl)
        ∙ e,
    ground (arith, read_up_to-advance uid gid last db.group_read_cursors e),
  )

  pub first-IsUpToDate :
      (ms : List GroupMessage)
      → max_id gid ms ≡ max_id gid db.group_messages
      → IsUpToDate gid uid (record db {
        group_read_cursors =
            record { user_id = uid; group_id = gid; last_read_msg_id = last }
            ∷ db.group_read_cursors;
        group_messages = ms;
      })
  first-IsUpToDate ms same_max n h = (ground arith, ground arith)

-- For a user and a group that exist, marking the group as read a second time returns no delta and
-- leaves the database as the first time left it: nobody is counted twice.
pub mark_group_read_twice :
    (gid uid : ℕ) (db : Db)
    → KeysDistinct db.group_read_cursors
    → can_belong gid uid db ≡ true
    → mark_group_read_and_get_delta gid uid
        (healthy (state_of (mark_group_read_and_get_delta gid uid (healthy db))).db)
      ≡ ok [] (healthy (state_of (mark_group_read_and_get_delta gid uid (healthy db))).db)
mark_group_read_twice gid uid db d b =
    mark_cases (λ q. mark_group_read_and_get_delta gid uid (healthy q) ≡ ok [] (healthy q)) gid uid
      db (λ e. up_to_date gid uid db d (λ n h. cc)) (λ c r. cc)
      (λ last e c.
        up_to_date gid uid
          (with_reads gid uid last
            (update_where (cursor_of uid gid) (advance last) db.group_read_cursors) db)
          (update-KeysDistinct uid gid last db.group_read_cursors d)
          (advanced-IsUpToDate gid uid last db e _ (max_id-update gid _ db.group_messages) c))
      (λ last e c.
        up_to_date gid uid
          (with_reads gid uid last
            (record { user_id = uid; group_id = gid; last_read_msg_id = last }
              ∷ db.group_read_cursors)
            db)
          (c, d) (first-IsUpToDate gid uid last db e _ (max_id-update gid _ db.group_messages)))
