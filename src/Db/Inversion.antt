-- ===== src/Db/Inversion.antt =====
-- What a successful operation has done before: each of its statements has succeeded.
use myx_im.Base.{arith, ◌≡◌, String, Option, none, some, List, [], ◌∷◌}
use myx_im.Base.Outcome.{Outcome, ok, err, ◌>>=◌}
use myx_im.Db.{Db}
use myx_im.Db.Statement.{Pool, Sql, Dao, DbError, within, run_statement, statement, rollback}

module _ {A : Type 0} where
  within-ok :
      (faults : List (Option String)) (r : Outcome Db DbError A) {a : A} {q : Pool}
      → within faults r ≡ ok a q
      → r ≡ ok a q.db
  within-ok faults (ok a db) h = cc
  within-ok faults (err e db) h = cc

  run-ok :
      (faults : List (Option String)) (s : Sql A) (p : Pool) {a : A} {q : Pool}
      → run_statement faults s p ≡ ok a q
      → s p.db ≡ ok a q.db
  run-ok [] s p h = within-ok [] (s p.db) h
  run-ok (none ∷ faults) s p h = within-ok faults (s p.db) h
  run-ok (some e ∷ faults) s p h = cc

  pub statement-ok :
      (s : Sql A) (p : Pool) {a : A} {q : Pool} → statement s p ≡ ok a q → s p.db ≡ ok a q.db
  statement-ok s p h = run-ok p.faults s p h

  pub rollback-ok :
      (db : Db) (r : Outcome Pool DbError A) {a : A} {q : Pool}
      → rollback db r ≡ ok a q
      → r ≡ ok a q
  rollback-ok db (ok a p) h = h
  rollback-ok db (err e p) h = cc

  pub rollback-err :
      (db : Db) (r : Outcome Pool DbError A) {e : DbError} {q : Pool}
      → rollback db r ≡ err e q
      → q.db ≡ db
  rollback-err db (ok a p) h = cc
  rollback-err db (err e p) h = cc

pub bind-ok :
    {A B : Type 0} (m : Dao A) (f : A → Dao B) (p : Pool) {b : B} {q : Pool}
    → (m >>= f) p ≡ ok b q
    → (a : A) × (r : Pool) × (m p ≡ ok a r) × (f a r ≡ ok b q)
bind-ok m f p h = ground arith
