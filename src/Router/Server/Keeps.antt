-- ===== src/Router/Server/Keeps.antt =====
-- Every step of the server keeps what the operations of src/dao.rs keep.
use myx_im.Base.{ℕ, ◌≡◌, refl, sym, subst, ◌∙◌, inl, inr, List, [], ◌∷◌, arith, Bool-cases, ◌==◌}
use myx_im.Base.Outcome.{Outcome, ok, err, state_of}
use myx_im.Model.{DeltaItem, User, ChatHistoryItem, GroupHistoryItem}
use myx_im.Db.{Db}
use myx_im.Db.Keeps.{Keeps}
use myx_im.Db.Statement.{Pool, Dao, DbError}
use myx_im.State.{Frame}
use myx_im.Router.App.{AppState, Json, query, continue, push}
use myx_im.Router.Delta.{push_updates}
use myx_im.Router.Sync.{send_private, send_group}
use myx_im.Router.Ws.{push_members}

-- One step on the state of the server, and one that returns a value too.
pub record KeepsState (P : Db → Type 0) (f : AppState → AppState) : Type 0 where
  pub keeps : (s : AppState) → P s.pool.db → P (f s).pool.db

pub record KeepsReply {A : Type 0} (P : Db → Type 0) (h : AppState → A × AppState) : Type 0 where
  pub keeps : (s : AppState) → P s.pool.db → P (h s).1.pool.db

module _ (P : Db → Type 0) where
  pub query-KeepsState :
      {A : Type 0} (m : Dao A) {f : A → AppState → AppState} {g : DbError → AppState → AppState}
      → Keeps P m
      → ((a : A) → KeepsState P (f a))
      → ((e : DbError) → KeepsState P (g e))
      → KeepsState P (query m f g)
  query-KeepsState {A} m {f} {g} k kf kg = record {
    keeps = λ s h. outcome s (m s.pool) (k s.pool h);
  }
    where
      outcome :
          (s : AppState) (r : Outcome Pool DbError A)
          → P (state_of r).db
          → P (continue s r f g).pool.db
      outcome s (ok a p) v = (kf a).keeps (record s { pool = p }) v
      outcome s (err e p) v = (kg e).keeps (record s { pool = p }) v

  pub query-KeepsReply :
      {A B : Type 0} (m : Dao A) {f : A → AppState → B × AppState}
      {g : DbError → AppState → B × AppState}
      → Keeps P m
      → ((a : A) → KeepsReply P (f a))
      → ((e : DbError) → KeepsReply P (g e))
      → KeepsReply P (query m f g)
  query-KeepsReply {A} {B} m {f} {g} k kf kg = record {
    keeps = λ s h. outcome s (m s.pool) (k s.pool h);
  }
    where
      outcome :
          (s : AppState) (r : Outcome Pool DbError A)
          → P (state_of r).db
          → P (continue s r f g).1.pool.db
      outcome s (ok a p) v = (kf a).keeps (record s { pool = p }) v
      outcome s (err e p) v = (kg e).keeps (record s { pool = p }) v

  -- A step that leaves the pool alone.
  pub quiet : {f : AppState → AppState} → ((s : AppState) → (f s).pool ≡ s.pool) → KeepsState P f
  quiet e = record { keeps = λ s h. subst (λ p. P p.db) (sym (e s)) h }

-- What the handlers send changes no row.
pub push_members-pool :
    (uid : ℕ) (msg : Frame) (ms : List ℕ) (s : AppState) → (push_members uid msg ms s).pool ≡ s.pool
push_members-pool uid msg [] s = refl
push_members-pool uid msg (m ∷ ms) s = elim (Bool-cases (m == uid)) [
  | inl e ↦ rw (e, push_members) (push_members-pool uid msg ms s)
  | inr e ↦ rw (e, push_members) (push_members-pool uid msg ms (push m msg s))
]

pub push_updates-pool :
    {V : Type 0} (json : Json V) (gid uid : ℕ) (groups : List (ℕ × List DeltaItem)) (s : AppState)
    → (push_updates json gid uid groups s).pool ≡ s.pool
push_updates-pool json gid uid [] s = refl
push_updates-pool json gid uid ((to, items) ∷ rest) s =
    push_updates-pool json gid uid rest _ ∙ ground arith

pub send_private-pool :
    {V : Type 0} (json : Json V) (uid tx : ℕ) (names : List User) (ms : List ChatHistoryItem)
    (s : AppState)
    → (send_private json uid tx names ms s).pool ≡ s.pool
send_private-pool json uid tx names [] s = refl
send_private-pool json uid tx names (m ∷ ms) s =
    send_private-pool json uid tx names ms _ ∙ ground arith

pub send_group-pool :
    {V : Type 0} (json : Json V) (uid tx : ℕ) (ms : List GroupHistoryItem) (s : AppState)
    → (send_group json uid tx ms s).pool ≡ s.pool
send_group-pool json uid tx [] s = refl
send_group-pool json uid tx (m ∷ ms) s = send_group-pool json uid tx ms _ ∙ ground arith
