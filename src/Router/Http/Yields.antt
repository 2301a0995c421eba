-- ===== src/Router/Http/Yields.antt =====
-- src/router.rs: what an answer made of the result of an operation has in its body.
use myx_im.Base.{◌≡◌, refl, String, Option, none, some, List, [], ◌∷◌, ℕ}
use myx_im.Base.Outcome.{Outcome, ok, err, ◌>>=◌, pure}
use myx_im.Db.{Db}
use myx_im.Db.Statement.{Pool, DbError, Sql, Dao, statement, run_statement, within}
use myx_im.Jwt.{Claims}
use myx_im.Service.{refuse}
use myx_im.Router.App.{AppState, query, continue}
use myx_im.Router.Http.{Handler, with_claims}

-- What an operation returns has the property, where it succeeds.
abbrev pub Yields : {S E A : Type 0} → (A → Type 0) → Outcome S E A → Type 0
Yields Q (ok a s) = Q a
Yields Q (err e s) = Unit {0}

-- A statement that has the property on the database of the pool.
pub statement_at-Yields :
    {A : Type 0} (Q : A → Type 0) (q : Sql A) (p : Pool)
    → Yields Q (q p.db)
    → Yields Q (statement q p)
statement_at-Yields {A} Q q p h = run p.faults
  where
    ran :
        (faults : List (Option String)) (r : Outcome Db DbError A)
        → Yields Q r
        → Yields Q (within faults r)
    ran faults (ok rows db) b = b
    ran faults (err e db) b = b

    run : (faults : List (Option String)) → Yields Q (run_statement faults q p)
    run [] = ran [] (q p.db) h
    run (none ∷ faults) = ran faults (q p.db) h
    run (some e ∷ faults) = tt

pub statement-Yields :
    {A : Type 0} (Q : A → Type 0) (q : Sql A) (p : Pool)
    → ((db : Db) → Yields Q (q db))
    → Yields Q (statement q p)
statement-Yields Q q p h = statement_at-Yields Q q p (h p.db)

pub >>=-Yields :
    {A B : Type 0} (Q : B → Type 0) (m : Dao A) (k : A → Dao B) (p : Pool)
    → ((a : A) (q : Pool) → Yields Q (k a q))
    → Yields Q ((m >>= k) p)
>>=-Yields {A} {B} Q m k p h = after (m p)
  where
    after : (r : Outcome Pool DbError A) → Yields Q (elim r [ ok a q ↦ k a q | err e q ↦ err e q ])
    after (ok a q) = h a q
    after (err e q) = tt

-- Rows that are returned beside another result.
pub paired :
    {A B : Type 0} (Q : A → Type 0) (m : Dao A) (b : B) (p : Pool)
    → Yields Q (m p)
    → Yields {A = A × B} (λ found. Q found.0) ((m >>= λ rows. pure (rows, b)) p)
paired {A} {B} Q m b p y = after (m p) y
  where
    after :
        (r : Outcome Pool DbError A)
        → Yields Q r
        → Yields {A = A × B}
            (λ found. Q found.0)
            (elim r [ ok rows q ↦ ok (rows, b) q | err e q ↦ err e q ])
    after (ok rows q) v = v
    after (err e q) v = tt

-- The body of an answer that a handler gives has the property, and so has one without a body.
module _ {B : Type 0} (P : Option B → Type 0) (bare : P none) where
  pub query-Yields :
      {A : Type 0} (Q : A → Type 0) (m : Dao A) (f : A → Handler B) (code : ℕ) (failure : String)
      (s : AppState)
      → Yields Q (m s.pool)
      → ((a : A) (t : AppState) → Q a → P (f a t).0.res.data_)
      → P (query m f (λ e t. (refuse code failure, t)) s).0.res.data_
  query-Yields {A} Q m f code failure s y h = answered (m s.pool) y
    where
      answered :
          (r : Outcome Pool DbError A)
          → Yields Q r
          → P (continue s r f (λ e t. (refuse code failure, t))).0.res.data_
      answered (ok a p) b = h a (record s { pool = p }) b
      answered (err e p) b = bare

  pub with_claims-Yields :
      (c : Option Claims) (h : Claims → Handler B) (s : AppState)
      → ((d : Claims) → c ≡ some d → P (h d s).0.res.data_)
      → P (with_claims c h s).0.res.data_
  with_claims-Yields none h s b = bare
  with_claims-Yields (some d) h s b = b d refl
