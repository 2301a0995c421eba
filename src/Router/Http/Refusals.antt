-- ===== src/Router/Http/Refusals.antt =====
-- src/router.rs: what a handler that answers with a client error changes.
pub mod Reads
pub mod Accounts
use myx_im.Base.{
  ℕ, ◌≡◌, refl, String, Bool, true, false, ◌&&◌, inl, inr, Option, none, some, leb, ltb, ◌==◌, same,
  arith, Bool-cases, Option-cases, any, find?, ==_refl,
}
use myx_im.Base.Outcome.{Outcome, ok, err}
use myx_im.Model.{GroupInfo}
use myx_im.Db.{Db}
use myx_im.Db.Statement.{Pool, Dao, DbError, healthy}
use myx_im.Jwt.{Config, Crypto, Claims, verify_token}
use myx_im.Service.{answer, delete_user, deleted, error_text, contains}
use myx_im.Dao.Users.{varchar, has_user}
use myx_im.Dao.Groups.{join_group, create_group, is_member, can_belong, owns_name, has_group}
use myx_im.Dao.Select.{user_row}
use myx_im.Dao.Friends.{add_friend}
use myx_im.Dao.Delete
use myx_im.State.{Online}
use myx_im.Router.App.{AppState, query, continue}
use myx_im.Router.Trim.{trim}
use myx_im.Router.Http.{
  Handler, with_claims, user_delete_handler, friend_add_handler, group_create_handler,
  group_join_handler, finish_delete, create_refused,
}

-- 400 to 499
abbrev pub is_client_error : ℕ → Bool
is_client_error status = leb 400 status && ltb status 500

-- A handler that changes the pool does not answer with a client error.
abbrev pub Spares : {T : Type 0} → Handler T → AppState → Type 0
Spares h s = is_client_error (h s).0.status ≡ true → (h s).1.pool ≡ s.pool

module _ {T : Type 0} where
  pub claims-Spares :
      (c : Option Claims) (h : Claims → Handler T) (s : AppState)
      → ((d : Claims) → Spares (h d) s)
      → Spares (with_claims c h) s
  claims-Spares none h s k e = refl
  claims-Spares (some d) h s k e = k d e

  -- An operation that is answered with 200, or 500 where it fails.
  pub query-Spares :
      {A : Type 0} (m : Dao A) (f : A → Handler T) (g : DbError → Handler T) (s : AppState)
      → ((a : A) (t : AppState) → is_client_error (f a t).0.status ≡ false)
      → ((e : DbError) (t : AppState) → is_client_error (g e t).0.status ≡ false)
      → Spares (query m f g) s
  query-Spares {A} m f g s hf hg = answered (m s.pool)
    where
      answered :
          (r : Outcome Pool DbError A)
          → is_client_error (continue s r f g).0.status ≡ true
          → (continue s r f g).1.pool ≡ s.pool
      answered (ok a p) e = absurd (ground (arith, hf a (record s { pool = p })))
      answered (err x p) e = absurd (ground (arith, hg x (record s { pool = p })))

module _ (crypto : Crypto) (secs : ℕ) (config : Config) (db : Db) (online : Online) where
  abbrev before : AppState
  before = record { pool = healthy db; online = online }

  -- Where an error is answered with 409, the pool is as it was.
  abbrev IsSpared : Outcome Pool DbError GroupInfo → Type 0
  IsSpared (ok group p) = Unit {0}
  IsSpared (err x p) = contains (error_text x) "already exists" ≡ true → p ≡ healthy db

  create_group-IsSpared :
      (now gid : ℕ) (name : String) (uid : ℕ)
      → IsSpared (create_group now gid name uid (healthy db))
  unfolding create_group
  create_group-IsSpared now gid name uid =
      elim (Option-cases (find? (owns_name uid name) db.groups)) [
        | inr (g, e) ↦ rw (e, create_group) (λ t. refl)
        | inl e ↦ elim (Option-cases (varchar 50 name)) [
          | inl n ↦ rw (e, create_group, n) (λ t. refl)
          | inr (short, n) ↦ elim (Bool-cases (has_group gid db.groups)) [
            | inl h ↦ rw (e, create_group, n, h) (λ t. refl)
            | inr h ↦ elim (Bool-cases (any (owns_name uid short) db.groups)) [
              | inl o ↦ rw (e, create_group, n, h, o) (λ t. refl)
              | inr o ↦ elim (Bool-cases (has_user uid db.users)) [
                | inr u ↦ rw (e, create_group, n, h, o, u) (λ t. refl)
                | inl u ↦ elim (Bool-cases (is_member gid uid db)) [
                  | inl m ↦ rw (e, create_group, n, h, o, u, m) (λ t. absurd (ground arith))
                  | inr m ↦ elim (Option-cases (user_row uid db.users)) [
                    | inl w ↦ rw (e, create_group, n, h, o, u, m, ==_refl gid, u, w) tt
                    | inr (a, w) ↦ rw (e, create_group, n, h, o, u, m, ==_refl gid, u, w) tt
                  ]
                ]
              ]
            ]
          ]
        ]
      ]

  created :
      (r : Outcome Pool DbError GroupInfo)
      → IsSpared r
      → let done =
          continue before r
            (λ group s. (answer group "group created", s))
            (create_refused crypto secs config) in
        is_client_error done.0.status ≡ true → done.1.pool ≡ healthy db
  created (ok group p) k e = absurd (ground arith)
  created (err x p) k e = elim (Bool-cases (contains (error_text x) "already exists")) [
    | inl c ↦ k c
    | inr c ↦ absurd (ground (arith, c))
  ]

  module _ (token : String) where
    pub friend_add-Spares :
        (now peer : ℕ) → Spares (friend_add_handler crypto secs config now token peer) before
    unfolding friend_add_handler
    friend_add-Spares now peer = claims-Spares (verify_token crypto secs token config) _ before λ c.
        elim (Bool-cases (c.user_id == peer)) [
          | inl k ↦ rw k (λ e. refl)
          | inr k ↦
              rw k (
                query-Spares (add_friend now c.user_id peer) _ _ before (λ u t. refl) (λ x t. refl))
        ]

    pub group_join-Spares :
        (now gid : ℕ) → Spares (group_join_handler crypto secs config now token gid) before
    unfolding group_join_handler join_group
    group_join-Spares now gid = claims-Spares (verify_token crypto secs token config) _ before λ c.
        elim (Bool-cases (is_member gid c.user_id db)) [
          | inl k ↦ rw (k, join_group) (λ e. refl)
          | inr k ↦ elim (Bool-cases (can_belong gid c.user_id db)) [
            | inl b ↦ rw (k, b, join_group) (λ e. absurd (ground arith))
            | inr b ↦ rw (k, b, join_group) (λ e. absurd (ground arith))
          ]
        ]

    pub group_create-Spares :
        (now gid : ℕ) (name : String)
        → Spares (group_create_handler crypto secs config now gid token name) before
    unfolding group_create_handler create_group
    group_create-Spares now gid name =
        claims-Spares (verify_token crypto secs token config) _ before λ c.
          elim (Bool-cases (same (trim name) "")) [
            | inl k ↦ rw k (λ e. refl)
            | inr k ↦ rw k (
                created (create_group now gid (trim name) c.user_id (healthy db))
                  (create_group-IsSpared now gid (trim name) c.user_id))
          ]

    pub user_delete-Spares : Spares (user_delete_handler crypto secs config token) before
    unfolding user_delete_handler delete_user
    user_delete-Spares = elim (Option-cases (verify_token crypto secs token config)) [
      | inl e ↦ rw e (λ k. refl)
      | inr (c, e) ↦ rw e (finished c.user_id (Delete.delete_user c.user_id (healthy db)))
    ]
      where
        finished :
            (uid : ℕ) (r : Outcome Pool DbError (Unit {0}))
            → let (x, p) = deleted crypto secs config uid r in
              let done = finish_delete crypto secs config x (record before { pool = p }) in
              is_client_error done.0.status ≡ true → done.1.pool ≡ healthy db
        finished uid (ok u p) k = absurd (ground arith)
        finished uid (err x p) k = absurd (ground arith)
