-- ===== src/Dao/GroupRead/Counts.antt =====
-- The counter `read_count` of src/dao.rs refines an aggregate over the read cursors: it is the
-- number of users other than the sender, members or not, whose cursor has passed the message.
use myx_im.Base.{
  ℕ, ◌+◌, ◌<◌, ◌≡◌, sym, subst, Bool, true, false, none, some, List, [], ◌∷◌, inl, inr, any,
  update_where, arith, Bool-cases, Option-cases,
}
use myx_im.Base.Outcome.{state_of}
use myx_im.Base.Rows.{All, All-map, All-update_where}
use myx_im.Model.{Uuid}
use myx_im.Db.{Db, GroupMessage, GroupReadCursor}
use myx_im.Db.Statement.{healthy}
use myx_im.Dao.Groups.{can_belong}
use myx_im.Dao.GroupMessages.{cursor_of, read_up_to}
use myx_im.Dao.GroupRead.{
  advance, in_delta, count_read, max_id, delta_rows, upsert_group_read_cursor,
  mark_group_read_and_get_delta,
}
use myx_im.Dao.GroupRead.Cursors.{
  readers, KeysDistinct, newly, readers-advance, readers-cons, update-KeysDistinct,
}

-- What a message's row has, given the cursors and the next id.
abbrev pub IsCounted : List GroupReadCursor → ℕ → GroupMessage → Type 0
IsCounted cs next m = (m.read_count ≡ readers m cs) × (0 < m.id) × (m.id < next)

abbrev pub IsBehind : ℕ → GroupReadCursor → Type 0
IsBehind next c = c.last_read_msg_id < next

pub record CountsReads (db : Db) : Type 0 where
  pub counted : All (IsCounted db.group_read_cursors db.next_group_msg_id) db.group_messages
  pub behind : All (IsBehind db.next_group_msg_id) db.group_read_cursors
  pub distinct : KeysDistinct db.group_read_cursors
  pub started : 0 < db.next_group_msg_id

-- The highest id of a group is an id of a message.
pub max_id-lt :
    (gid next latest : ℕ) (ms : List GroupMessage)
    → All (λ m. m.id < next) ms
    → max_id gid ms ≡ some latest
    → latest < next
max_id-lt gid next latest [] a h = absurd (ground arith)
max_id-lt gid next latest (m ∷ ms) a h = elim (Option-cases (max_id gid ms)) [
  | inl e ↦ ground arith
  | inr (n, e) ↦ ground (arith, max_id-lt gid next n ms a.1 e)
]

-- The statements 3 and 4 on the rows of messages.
count_new_reads :
    (gid uid last next : ℕ) (cs cs' : List GroupReadCursor)
    → ((m : GroupMessage) → 0 < m.id → readers m cs' ≡ readers m cs + newly uid gid last m cs)
    → (ms : List GroupMessage) → All (IsCounted cs next) ms
    → All
        (IsCounted cs' next)
        (update_where (in_delta gid (read_up_to uid gid cs) last uid) count_read ms)
count_new_reads gid uid last next cs cs' h ms =
    All-update_where (IsCounted cs next) (IsCounted cs' next) _ count_read ms λ m c.
      elim (Bool-cases (in_delta gid (read_up_to uid gid cs) last uid m)) [
        | inl e ↦ rw e (ground (arith, h m c.1, e))
        | inr e ↦ rw e (ground (arith, h m c.1, e))
      ]

pub advance-IsBehind :
    (last next : ℕ) (p : GroupReadCursor → Bool) (cs : List GroupReadCursor)
    → last < next
    → All (IsBehind next) cs
    → All (IsBehind next) (update_where p (advance last) cs)
advance-IsBehind last next p cs h =
    All-update_where (IsBehind next) (IsBehind next) p (advance last) cs λ c b. ground arith

-- The rows after the upsert and the increment.
abbrev pub with_reads : Uuid → Uuid → ℕ → List GroupReadCursor → Db → Db
with_reads gid uid last cs db = record db {
  group_read_cursors = cs;
  group_messages =
      update_where (in_delta gid (read_up_to uid gid db.group_read_cursors) last uid) count_read
        db.group_messages;
}

module _ (gid uid last : ℕ) (db : Db) (v : CountsReads db)
    (fits : last < db.next_group_msg_id) where
  advanced-CountsReads :
      any (cursor_of uid gid) db.group_read_cursors ≡ true
      → CountsReads (
          with_reads gid uid last
            (update_where (cursor_of uid gid) (advance last) db.group_read_cursors)
            db)
  advanced-CountsReads e = record {
    counted =
        count_new_reads gid uid last db.next_group_msg_id db.group_read_cursors _
          (λ m p. readers-advance uid gid last m db.group_read_cursors v.distinct e)
          db.group_messages v.counted;
    behind =
        advance-IsBehind last db.next_group_msg_id (cursor_of uid gid) db.group_read_cursors fits
          v.behind;
    distinct = update-KeysDistinct uid gid last db.group_read_cursors v.distinct;
    started = v.started;
  }

  first-CountsReads :
      any (cursor_of uid gid) db.group_read_cursors ≡ false
      → CountsReads (
          with_reads gid uid last
            (record { user_id = uid; group_id = gid; last_read_msg_id = last }
              ∷ db.group_read_cursors)
            db)
  first-CountsReads e = record {
    counted =
        count_new_reads gid uid last db.next_group_msg_id db.group_read_cursors
          (record { user_id = uid; group_id = gid; last_read_msg_id = last }
            ∷ db.group_read_cursors)
          (λ m p. readers-cons uid gid last m db.group_read_cursors p e) db.group_messages
          v.counted;
    behind = (fits, v.behind);
    distinct = (e, v.distinct);
    started = v.started;
  }

delta_rows-state :
    (gid old last uid n : ℕ) (db : Db)
    → (state_of (delta_rows gid old last uid n (healthy db))).db ≡ db
delta_rows-state gid old last uid n db = ground arith

-- Each way in which the operation may end, on a pool where no statement fails.
pub mark_cases :
    (P : Db → Type 0) (gid uid : ℕ) (db : Db)
    → (max_id gid db.group_messages ≡ none → P db)
    → (any (cursor_of uid gid) db.group_read_cursors ≡ false → can_belong gid uid db ≡ false → P db)
    → ((last : ℕ)
        → max_id gid db.group_messages ≡ some last
        → any (cursor_of uid gid) db.group_read_cursors ≡ true
        → P (
            with_reads gid uid last
              (update_where (cursor_of uid gid) (advance last) db.group_read_cursors)
              db))
    → ((last : ℕ)
        → max_id gid db.group_messages ≡ some last
        → any (cursor_of uid gid) db.group_read_cursors ≡ false
        → P (
            with_reads gid uid last
              (record { user_id = uid; group_id = gid; last_read_msg_id = last }
                ∷ db.group_read_cursors)
              db))
    → P (state_of (mark_group_read_and_get_delta gid uid (healthy db))).db
unfolding mark_group_read_and_get_delta upsert_group_read_cursor
mark_cases P gid uid db no_message refused advanced first =
    elim (Option-cases (max_id gid db.group_messages)) [
      | inl e ↦ rw (e, mark_group_read_and_get_delta) (no_message e)
      | inr (last, e) ↦ elim (Bool-cases (any (cursor_of uid gid) db.group_read_cursors)) [
        | inl c ↦
            rw (e, c, mark_group_read_and_get_delta)
              (subst P (sym (delta_rows-state gid _ last uid _ _)) (advanced last e c))
        | inr c ↦ elim (Bool-cases (can_belong gid uid db)) [
          | inl b ↦
              rw (e, c, b, mark_group_read_and_get_delta)
                (subst P (sym (delta_rows-state gid _ last uid _ _)) (first last e c))
          | inr b ↦ rw (e, c, b, mark_group_read_and_get_delta) (refused c b)
        ]
      ]
    ]

-- Where no statement fails, marking a group as read, with nothing beside it, keeps every read count the
-- number of users other than the sender, members of the group or not, whose cursor has passed the
-- message.
pub mark_group_read-CountsReads :
    (gid uid : ℕ) (db : Db)
    → CountsReads db
    → CountsReads (state_of (mark_group_read_and_get_delta gid uid (healthy db))).db
mark_group_read-CountsReads gid uid db v =
    mark_cases CountsReads gid uid db (λ _. v) (λ _ _. v)
      (λ last m e. advanced-CountsReads gid uid last db v (latest_fits last m) e)
      (λ last m e. first-CountsReads gid uid last db v (latest_fits last m) e)
  where
    latest_fits :
        (last : ℕ) → max_id gid db.group_messages ≡ some last → last < db.next_group_msg_id
    latest_fits last m =
        max_id-lt gid db.next_group_msg_id last db.group_messages
          (All-map (IsCounted db.group_read_cursors db.next_group_msg_id)
            (λ m. m.id < db.next_group_msg_id) db.group_messages (λ a c. c.2) v.counted)
          m
