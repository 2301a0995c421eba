-- ===== src/Dao/GroupRead/Tasks/Twice.antt =====
-- src/dao.rs, mark_group_read_and_get_delta: the upsert and the `UPDATE` of the counts, each made twice
-- with the same values.
use myx_im.Base.{
  ℕ, suc, ◌+◌, ◌<◌, ◌≤◌, ◌≡◌, ◌∙◌, refl, sym, subst, Bool, true, List, [], ◌∷◌, inl, inr, any,
  update_where, arith, Bool-cases, if◌then◌else◌,
}
use myx_im.Base.Outcome.{ok}
use myx_im.Base.Rows.{All, any-update_where}
use myx_im.Db.{Db, GroupMessage, GroupReadCursor}
use myx_im.Dao.Groups.{can_belong}
use myx_im.Dao.GroupMessages.{cursor_of, read_up_to}
use myx_im.Dao.GroupRead.{advance, in_delta, count_read, upsert_group_cursor}
use myx_im.Dao.GroupRead.Cursors.{readers, newly, KeysDistinct, update-KeysDistinct}
use myx_im.Dao.GroupRead.Counts.{IsCounted}
use myx_im.Dao.GroupRead.Again.{read_up_to-advance, advance_again}
use myx_im.Dao.GroupRead.Lost.{upserted}

abbrev set_where :
    (GroupMessage → Bool) → (GroupMessage → GroupMessage) → GroupMessage → GroupMessage
set_where p f m = if p m then f m else m

-- An assignment made twice at a row that meets the condition and goes on meeting it.
twice :
    (p : GroupMessage → Bool) (f : GroupMessage → GroupMessage) (m : GroupMessage)
    → p m ≡ true
    → p (f m) ≡ true
    → set_where p f (set_where p f m) ≡ f (f m)
twice p f m d e =
    subst (λ b. set_where p f (if b then f m else m) ≡ f (f m)) (sym d)
      (subst (λ b. (if b then f (f m) else f m) ≡ f (f m)) (sym e) refl)

-- Rows that two calls have counted for one reader.
pub IsCounted-twice :
    (gid uid last next : ℕ) (cs cs' : List GroupReadCursor)
    → ((m : GroupMessage) → 0 < m.id → readers m cs' ≡ readers m cs + newly uid gid last m cs)
    → (ms : List GroupMessage) → All (IsCounted cs next) ms
    → any (in_delta gid (read_up_to uid gid cs) last uid) ms ≡ true
    → ¬ All (IsCounted cs' next) (
        update_where
          (in_delta gid (read_up_to uid gid cs) last uid)
          count_read
          (update_where (in_delta gid (read_up_to uid gid cs) last uid) count_read ms))
IsCounted-twice gid uid last next cs cs' h [] a e b = cc
IsCounted-twice gid uid last next cs cs' h (m ∷ ms) a e b =
    elim (Bool-cases (in_delta gid (read_up_to uid gid cs) last uid m)) [
      | inl d ↦
          let wrong : (suc (suc m.read_count) ≡ readers m cs') =
            subst (λ r. r.read_count ≡ readers r cs')
              (twice (in_delta gid (read_up_to uid gid cs) last uid) count_read m d d) b.0.0 in
          ground (arith, h m a.0.1, d, wrong)
      | inr d ↦ IsCounted-twice gid uid last next cs cs' h ms a.1 (ground arith) b.1
    ]

-- An upsert to a message that the cursor has passed changes nothing.
upsert_again :
    (gid uid last : ℕ) (db : Db)
    → KeysDistinct db.group_read_cursors
    → any (cursor_of uid gid) db.group_read_cursors ≡ true
    → last ≤ read_up_to uid gid db.group_read_cursors
    → upsert_group_cursor uid gid last db ≡ ok tt db
upsert_again gid uid last db d c h = rw (c, advance_again uid gid last db.group_read_cursors d h)

pub upserted_again :
    (gid uid last : ℕ) (db : Db)
    → KeysDistinct db.group_read_cursors
    → upsert_group_cursor uid gid last (record db { group_read_cursors = upserted gid uid last db })
      ≡ ok tt (record db { group_read_cursors = upserted gid uid last db })
upserted_again gid uid last db d =
    elim (Bool-cases (any (cursor_of uid gid) db.group_read_cursors)) [
      | inl c ↦ rw c (
          upsert_again gid uid last
            (record db {
              group_read_cursors =
                  update_where (cursor_of uid gid) (advance last) db.group_read_cursors;
            })
            (update-KeysDistinct uid gid last db.group_read_cursors d)
            (any-update_where (cursor_of uid gid) (cursor_of uid gid) (advance last)
                db.group_read_cursors (λ c. refl)
              ∙ c)
            (read_up_to-advance uid gid last db.group_read_cursors c))
      | inr c ↦ rw c (
          upsert_again gid uid last
            (record db {
              group_read_cursors =
                  record { user_id = uid; group_id = gid; last_read_msg_id = last }
                  ∷ db.group_read_cursors;
            })
            (c, d) (ground arith) (ground arith))
    ]

pub upsert_of_member :
    (gid uid last : ℕ) (db : Db)
    → can_belong gid uid db ≡ true
    → upsert_group_cursor uid gid last db
      ≡ ok tt (record db { group_read_cursors = upserted gid uid last db })
upsert_of_member gid uid last db b =
    elim (Bool-cases (any (cursor_of uid gid) db.group_read_cursors)) [
      | inl c ↦ rw c
      | inr c ↦ rw (c, b)
    ]
