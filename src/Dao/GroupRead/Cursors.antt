-- ===== src/Dao/GroupRead/Cursors.antt =====
-- The rows of im_group_read_cursors that count as readers of a message, and what an upsert does to
-- their number.
use myx_im.Base.{
  ℕ, ◌+◌, ◌<◌, ◌≡◌, refl, ◌∙◌, Bool, true, false, ◌&&◌, not, List, [], ◌∷◌, inl, inr, any, count_if,
  update_where, leb, ◌==◌, if◌then◌else◌, arith, Bool-cases,
}
use myx_im.Base.Rows.{update_where_none, any-update_where, find?-none}
use myx_im.Model.{Uuid}
use myx_im.Db.{GroupMessage, GroupReadCursor}
use myx_im.Dao.GroupMessages.{cursor_of, read_up_to}
use myx_im.Dao.GroupRead.{advance, in_delta}

-- The cursor belongs to the message's group and to another user, and has passed the message.
abbrev pub has_read : GroupMessage → GroupReadCursor → Bool
has_read m c =
    c.group_id == m.group_id && not (c.user_id == m.from_uid) && leb m.id c.last_read_msg_id

-- The number of other users who have read a message, by their cursors.
abbrev pub readers : GroupMessage → List GroupReadCursor → ℕ
readers m = count_if (has_read m)

-- `PRIMARY KEY (user_id, group_id)`
abbrev pub KeysDistinct : List GroupReadCursor → Type 0
KeysDistinct [] = Unit {0}
KeysDistinct (c ∷ cs) = (any (cursor_of c.user_id c.group_id) cs ≡ false) × KeysDistinct cs

-- One more reader, where the message is in what the upsert newly covers.
abbrev pub newly : Uuid → Uuid → ℕ → GroupMessage → List GroupReadCursor → ℕ
newly uid gid last m cs = if in_delta gid (read_up_to uid gid cs) last uid m then 1 else 0

-- At the cursor itself.
advance-has_read :
    (uid gid last : ℕ) (m : GroupMessage) (c : GroupReadCursor)
    → cursor_of uid gid c ≡ true
    → (if has_read m (advance last c) then 1 else 0)
      ≡ (if has_read m c then 1 else 0)
        + (if in_delta gid c.last_read_msg_id last uid m then 1 else 0)
advance-has_read uid gid last m c h = ground arith

pub same_keys :
    (uid gid : ℕ) (c : GroupReadCursor) (cs : List GroupReadCursor)
    → cursor_of uid gid c ≡ true
    → any (cursor_of c.user_id c.group_id) cs ≡ false
    → any (cursor_of uid gid) cs ≡ false
same_keys uid gid c [] h d = refl
same_keys uid gid c (x ∷ xs) h d = ground (arith, same_keys uid gid c xs)

-- The upsert on a cursor that is there adds one reader to exactly the messages newly covered.
pub readers-advance :
    (uid gid last : ℕ) (m : GroupMessage) (cs : List GroupReadCursor)
    → KeysDistinct cs
    → any (cursor_of uid gid) cs ≡ true
    → readers m (update_where (cursor_of uid gid) (advance last) cs)
      ≡ readers m cs + newly uid gid last m cs
readers-advance uid gid last m [] d h = absurd (ground arith)
readers-advance uid gid last m (c ∷ cs) d h = elim (Bool-cases (cursor_of uid gid c)) [
  | inl e ↦
      rw (e, update_where_none (cursor_of uid gid) (advance last) cs (same_keys uid gid c cs e d.0))
        (omega (arith, advance-has_read uid gid last m c e))
  | inr e ↦ rw (e) (omega (arith, readers-advance uid gid last m cs d.1 (ground arith)))
]

-- A first cursor of the user in the group does so too.
pub readers-cons :
    (uid gid last : ℕ) (m : GroupMessage) (cs : List GroupReadCursor)
    → 0 < m.id
    → any (cursor_of uid gid) cs ≡ false
    → readers m (record { user_id = uid; group_id = gid; last_read_msg_id = last } ∷ cs)
      ≡ readers m cs + newly uid gid last m cs
readers-cons uid gid last m cs p h = ground (arith, find?-none (cursor_of uid gid) cs h)

-- An upsert keeps one row for each key.
pub update-KeysDistinct :
    (uid gid last : ℕ) (cs : List GroupReadCursor)
    → KeysDistinct cs
    → KeysDistinct (update_where (cursor_of uid gid) (advance last) cs)
update-KeysDistinct uid gid last [] d = tt
update-KeysDistinct uid gid last (c ∷ cs) d = elim (Bool-cases (cursor_of uid gid c)) [
  | inl e ↦ rw e (any_key, update-KeysDistinct uid gid last cs d.1)
  | inr e ↦ rw e (any_key, update-KeysDistinct uid gid last cs d.1)
]
  where
    any_key :
        any (cursor_of c.user_id c.group_id) (update_where (cursor_of uid gid) (advance last) cs)
        ≡ false
    any_key =
        any-update_where (cursor_of uid gid) (cursor_of c.user_id c.group_id) (advance last) cs
          (λ a. refl)
        ∙ d.0
