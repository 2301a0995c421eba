-- ===== src/Db/Statement.antt =====
-- How src/dao.rs runs a statement: against a pool whose next statements may each fail, in which
-- case nothing of the statement happens. `faults` says so of the statements to come; where the
-- list ends no statement fails.
use myx_im.Base.{ℕ, String, Option, none, some, List, [], ◌∷◌}
use myx_im.Base.Outcome.{Outcome, ok, err, ◌>>=◌, ◌>>◌, pure}
use myx_im.Db.{Db}

-- What `anyhow::Error` may hold here: a failed connection, with its message; a constraint that the
-- database reports; `fetch_one` without a row; a message of the program's own.
pub data DbError : Type 0 where
  connection : String → DbError
  unique_violation : String → DbError
  foreign_key_violation : String → DbError
  value_too_long : ℕ → DbError
  negative_limit : DbError
  row_not_found : DbError
  anyhow : String → DbError

pub record Pool : Type 0 where
  pub db : Db
  pub faults : List (Option String)

-- A statement of SQL. A rejected one leaves the rows alone, but a sequence may have advanced.
abbrev pub Sql : Type 0 → Type 0
Sql A = Db → Outcome Db DbError A

-- An operation of src/dao.rs.
abbrev pub Dao : Type 0 → Type 0
Dao A = Pool → Outcome Pool DbError A

-- A pool on which no statement fails.
abbrev pub healthy : Db → Pool
healthy db = record { db = db; faults = [] }

abbrev pub within :
    {A : Type 0} → List (Option String) → Outcome Db DbError A → Outcome Pool DbError A
within faults (ok a db) = ok a (record { db = db; faults = faults })
within faults (err e db) = err e (record { db = db; faults = faults })

abbrev pub run_statement : {A : Type 0} → List (Option String) → Sql A → Dao A
run_statement [] s p = within [] (s p.db)
run_statement (none ∷ faults) s p = within faults (s p.db)
run_statement (some e ∷ faults) s p = err (connection e) (record p { faults = faults })

abbrev pub statement : {A : Type 0} → Sql A → Dao A
statement s p = run_statement p.faults s p

abbrev pub rollback : {A : Type 0} → Db → Outcome Pool DbError A → Outcome Pool DbError A
rollback db (ok a p) = ok a p
rollback db (err e p) = err e (record p { db = db })

-- `BEGIN` and `COMMIT`.
abbrev pub empty_statement : Sql (Unit {0})
empty_statement db = ok tt db

-- `pool.begin()`, the statements and `tx.commit()`. When one fails the transaction is dropped,
-- and the database is as it was.
abbrev pub transaction : {A : Type 0} → Dao A → Dao A
transaction body p =
    rollback p.db ((do statement empty_statement; a ← body; statement empty_statement; pure a) p)

-- `.unwrap_or_default()` and the like on the outcome of an operation.
abbrev pub recover : {A : Type 0} → A → Outcome Pool DbError A → Outcome Pool DbError A
recover d (ok a p) = ok a p
recover d (err e p) = ok d p

abbrev pub or_default : {A : Type 0} → A → Dao A → Dao A
or_default d m p = recover d (m p)
