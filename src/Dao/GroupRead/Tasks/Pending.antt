-- ===== src/Dao/GroupRead/Tasks/Pending.antt =====
-- src/dao.rs, mark_group_read_and_get_delta: the calls whose cursor has moved and whose `UPDATE` of
-- the read counts is still to come, and lists of calls with one taken out.
use myx_im.Base.{
  not, sym, ℕ, ◌+◌, ◌<◌, ◌≡◌, refl, ◌∙◌, Bool, true, false, ◌&&◌, List, [], ◌∷◌, ◌++◌, all, arith,
  if◌then◌else◌,
}
use myx_im.Base.Rows.{All}
use myx_im.Model.{Uuid}
use myx_im.Db.{GroupMessage, GroupReadCursor}
use myx_im.Dao.GroupMessages.{cursor_of, read_up_to}
use myx_im.Dao.GroupRead.{in_delta}
use myx_im.Dao.GroupRead.Tasks.{
  Task, has_latest, has_old, moved, Call, is_active, busy_for, apart, all_apart,
}

-- One where the call is still to count its reader on the message.
abbrev pub owed_by : Uuid → Uuid → Task → GroupMessage → ℕ
owed_by gid uid (moved latest old) m = if in_delta gid old latest uid m then 1 else 0
owed_by gid uid _ m = 0

abbrev pub owed : GroupMessage → List Call → ℕ
owed m [] = 0
owed m (c ∷ cs) = owed_by c.group_id c.viewer_uid c.task m + owed m cs

-- What a call's variables say of the tables.
abbrev pub IsCurrent : List GroupReadCursor → ℕ → Uuid → Uuid → Task → Type 0
IsCurrent cursors next gid uid (has_latest latest) = latest < next
IsCurrent cursors next gid uid (has_old latest old) =
    (latest < next) × (old ≡ read_up_to uid gid cursors)
IsCurrent cursors next gid uid (moved latest old) = latest < next
IsCurrent cursors next gid uid _ = Unit {0}

abbrev pub AllApart : List Call → Type 0
AllApart [] = Unit {0}
AllApart (c ∷ cs) = (all_apart c cs ≡ true) × AllApart cs

pub owed-middle :
    (m : GroupMessage) (c : Call) (xs ys : List Call)
    → owed m (xs ++ (c ∷ ys)) ≡ owed m (c ∷ (xs ++ ys))
owed-middle m c [] ys = refl
owed-middle m c (x ∷ xs) ys = rw (owed-middle m c xs ys) (omega arith)

module _ (P : Call → Type 0) (c : Call) (ys : List Call) where
  pub All-front : (xs : List Call) → All P (xs ++ (c ∷ ys)) → All P (c ∷ (xs ++ ys))
  All-front [] a = a
  All-front (x ∷ xs) a = let r = All-front xs a.1 in (r.0, (a.0, r.1))

  pub All-back : (xs : List Call) → All P (c ∷ (xs ++ ys)) → All P (xs ++ (c ∷ ys))
  All-back [] a = a
  All-back (x ∷ xs) a = (a.1.0, All-back xs (a.0, a.1.1))

all-middle :
    (f : Call → Bool) (c : Call) (xs ys : List Call)
    → all f (xs ++ (c ∷ ys)) ≡ (f c && all f (xs ++ ys))
all-middle f c [] ys = refl
all-middle f c (d ∷ xs) ys = ground (arith, all-middle f c xs ys)

apart_comm : (c d : Call) → apart c d ≡ true → apart d c ≡ true
apart_comm c d h = ground arith

both : {a b : Bool} → a ≡ true → b ≡ true → (a && b) ≡ true
both p q = ground arith

pub conjuncts : (a b : Bool) → (a && b) ≡ true → (a ≡ true) × (b ≡ true)
conjuncts a b h = (ground arith, ground arith)

pub AllApart-front :
    (c : Call) (xs ys : List Call) → AllApart (xs ++ (c ∷ ys)) → AllApart (c ∷ (xs ++ ys))
AllApart-front c [] ys a = a
AllApart-front c (x ∷ xs) ys a =
    let r = AllApart-front c xs ys a.1 in
    let h : (apart x c && all_apart x (xs ++ ys)) ≡ true =
      sym (all-middle (apart x) c xs ys) ∙ a.0 in
    (both (apart_comm x c (conjuncts _ _ h).0) r.0, ((conjuncts _ _ h).1, r.1))

pub AllApart-back :
    (c : Call) (xs ys : List Call) → AllApart (c ∷ (xs ++ ys)) → AllApart (xs ++ (c ∷ ys))
AllApart-back c [] ys a = a
AllApart-back c (x ∷ xs) ys a = (
  all-middle (apart x) c xs ys ∙ both (apart_comm c x (conjuncts _ _ a.0).0) a.1.0,
  AllApart-back c xs ys ((conjuncts _ _ a.0).1, a.1.1),
)

all-not :
    (a b : Bool) (q : Call → Bool) (cs : List Call)
    → a ≡ true
    → all (λ d. not (a && q d)) cs ≡ true
    → all (λ d. not (b && q d)) cs ≡ true
all-not a b q [] e h = refl
all-not a b q (d ∷ cs) e h = ground (arith, all-not a b q cs e)

-- A call that goes on stays apart from the others, where it was on the way.
pub all_apart-advanced :
    (gid uid : ℕ) (t t' : Task) (cs : List Call)
    → is_active t ≡ true
    → all_apart (record { group_id = gid; viewer_uid = uid; task = t }) cs ≡ true
    → all_apart (record { group_id = gid; viewer_uid = uid; task = t' }) cs ≡ true
all_apart-advanced gid uid t t' cs = all-not (is_active t) (is_active t') (busy_for gid uid) cs

-- A call apart from one that is on the way, and itself on the way, has another reader.
pub apart-cursor :
    (gid uid : ℕ) (t : Task) (d : Call) (r : GroupReadCursor)
    → is_active t ≡ true
    → apart (record { group_id = gid; viewer_uid = uid; task = t }) d ≡ true
    → is_active d.task ≡ true
    → cursor_of uid gid r ≡ true
    → cursor_of d.viewer_uid d.group_id r ≡ false
apart-cursor gid uid t d r a h b e = ground arith
