-- ===== src/Db/Keeps.antt =====
-- What an operation keeps whichever of its statements fail.
use myx_im.Base.{◌≡◌, refl, sym, subst, String, Option, none, some, List, [], ◌∷◌}
use myx_im.Base.Outcome.{Outcome, ok, err, ◌>>=◌, ◌>>◌, pure, state_of}
use myx_im.Db.{Db}
use myx_im.Db.Statement.{
  Pool, Sql, Dao, DbError, within, run_statement, statement, rollback, recover, or_default,
  transaction, empty_statement,
}

-- Whatever the pool's statements do, the database has the property afterwards if it had it before.
abbrev pub Keeps : {A : Type 0} → (Db → Type 0) → Dao A → Type 0
Keeps P m = (p : Pool) → P p.db → P (state_of (m p)).db

-- As of a statement on the rows.
abbrev pub KeepsRows : {A : Type 0} → (Db → Type 0) → Sql A → Type 0
KeepsRows P s = (db : Db) → P db → P (state_of (s db))

module _ {A : Type 0} (P : Db → Type 0) where
  within-keeps :
      (faults : List (Option String)) (r : Outcome Db DbError A)
      → P (state_of r)
      → P (state_of (within faults r)).db
  within-keeps faults (ok a db) h = h
  within-keeps faults (err e db) h = h

  run-keeps :
      (faults : List (Option String)) (s : Sql A) (p : Pool)
      → KeepsRows P s
      → P p.db
      → P (state_of (run_statement faults s p)).db
  run-keeps [] s p k h = within-keeps [] (s p.db) (k p.db h)
  run-keeps (none ∷ faults) s p k h = within-keeps faults (s p.db) (k p.db h)
  run-keeps (some e ∷ faults) s p k h = h

  pub statement-Keeps : (s : Sql A) → KeepsRows P s → Keeps P (statement s)
  statement-Keeps s k p h = run-keeps p.faults s p k h

  rollback-keeps :
      (db : Db) (r : Outcome Pool DbError A)
      → P db
      → P (state_of r).db
      → P (state_of (rollback db r)).db
  rollback-keeps db (ok a p) h k = k
  rollback-keeps db (err e p) h k = h

  recover-keeps :
      (d : A) (r : Outcome Pool DbError A) → P (state_of r).db → P (state_of (recover d r)).db
  recover-keeps d (ok a p) h = h
  recover-keeps d (err e p) h = h

  pub or_default-Keeps : (d : A) (m : Dao A) → Keeps P m → Keeps P (or_default d m)
  or_default-Keeps d m k p h = recover-keeps d (m p) (k p h)

module _ {A B : Type 0} (P : Db → Type 0) where
  bind-keeps :
      (r : Outcome Pool DbError A) (f : A → Dao B)
      → ((a : A) → Keeps P (f a))
      → P (state_of r).db
      → P
          (state_of
            (elim r as (λ _. Outcome Pool DbError B) [ ok a s' ↦ f a s' | err e s' ↦ err e s' ])).db
  bind-keeps (ok a p) f k h = k a p h
  bind-keeps (err e p) f k h = h

  pub >>=-Keeps :
      (m : Dao A) (f : A → Dao B) → Keeps P m → ((a : A) → Keeps P (f a)) → Keeps P (m >>= f)
  >>=-Keeps m f k l p h = bind-keeps (m p) f l (k p h)

module _ {A : Type 0} (P : Db → Type 0) where
  -- A statement that only reads.
  pub read-Keeps : (s : Sql A) → ((db : Db) → state_of (s db) ≡ db) → Keeps P (statement s)
  read-Keeps s e = statement-Keeps P s (λ db h. subst P (sym (e db)) h)

begin-Keeps : (P : Db → Type 0) → Keeps P (statement empty_statement)
begin-Keeps P = read-Keeps P empty_statement (λ db. refl)

pub transaction-Keeps :
    {A : Type 0} (P : Db → Type 0) (body : Dao A) → Keeps P body → Keeps P (transaction body)
transaction-Keeps {A} P body k p h =
    let finish : A → Dao A = λ a. statement empty_statement >> pure a in
    let ended : (a : A) → Keeps P (finish a) = λ a.
      >>=-Keeps {B = A} P (statement empty_statement) (λ _. pure a) (begin-Keeps P) (λ _ q v. v) in
    rollback-keeps {A = A} P p.db ((statement empty_statement >> (body >>= finish)) p) h (
      >>=-Keeps {B = A} P (statement empty_statement) (λ _. body >>= finish) (begin-Keeps P)
        (λ _. >>=-Keeps {B = A} P body finish k ended) p h)

-- A statement that leaves a part of the database alone keeps what is said of this part.
pub untouched-Keeps :
    {A B : Type 0} (part : Db → B) (Q : B → Type 0) (s : Sql A)
    → ((db : Db) → part (state_of (s db)) ≡ part db)
    → KeepsRows (λ db. Q (part db)) s
untouched-Keeps part Q s e db h = subst Q (sym (e db)) h
