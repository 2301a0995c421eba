-- ===== src/Router/Http/Bounds.antt =====
-- src/router.rs: how many rows an answer holds, whatever limit a client asks for.
use myx_im.Base.{
  ℕ, ◌≤◌, String, Bool, Option, none, some, List, [], inl, inr, length, map, leb, arith, Bool-cases,
  unwrap_or,
}
use myx_im.Base.Int.{ℤ, pos, negsuc, min_ℤ}
use myx_im.Base.Sorted.{length-take-le}
use myx_im.Model.{Uuid}
use myx_im.Db.{Db}
use myx_im.Db.Statement.{Pool, statement, or_default}
use myx_im.Jwt.{Config, Crypto, verify_token}
use myx_im.Service.{answer}
use myx_im.Dao.Select.{limited}
use myx_im.Dao.Chat.{get_chat_history, select_history, chat_page, history_item, mark_seen}
use myx_im.Dao.Users.{search_users}
use myx_im.Dao.GroupMessages.{get_group_history}
use myx_im.Router.App.{AppState, Json}
use myx_im.Router.Delta.{mark_and_push}
use myx_im.Router.Http.Yields.{
  Yields, statement-Yields, >>=-Yields, paired, query-Yields, with_claims-Yields,
}
use myx_im.Router.Http.{
  tell_peer, clamp_limit, user_search_handler, message_history_handler, group_history_handler,
}

abbrev pub items_of : {A : Type 0} → Option (List A) → ℕ
items_of none = 0
items_of (some items) = length items

-- The body has at most so many rows.
abbrev HasItems : {A : Type 0} → ℕ → Option (List A) → Type 0
HasItems most body = items_of body ≤ most

abbrev IsPage : {A : Type 0} → ℕ → List A → Type 0
IsPage most rows = length rows ≤ most

min_limited :
    {A : Type 0} (l : ℤ) (most : ℕ) (rows : List A) (db : Db)
    → Yields (IsPage most) (limited (min_ℤ l most) rows db)
min_limited (pos n) most rows db = elim (Bool-cases (leb n most)) [
  | inl e ↦ rw e (ground (arith, length-take-le n rows))
  | inr e ↦ rw e (length-take-le most rows)
]
min_limited (negsuc n) most rows db = tt

search_users-IsPage :
    (ilike : String → String → Bool) (q : String) (uid : Uuid) (limit : Option ℤ) (p : Pool)
    → Yields (IsPage 50) (search_users ilike q uid (clamp_limit limit 20 50) p)
unfolding search_users
search_users-IsPage ilike q uid limit p =
    statement-Yields (IsPage 50) _ p (λ db. min_limited (unwrap_or limit (pos 20)) 50 _ db)

get_group_history-IsPage :
    (gid : Uuid) (before limit : Option ℤ) (p : Pool)
    → Yields (IsPage 100) (get_group_history gid before (clamp_limit limit 50 100) p)
unfolding get_group_history
get_group_history-IsPage gid before limit p =
    statement-Yields (IsPage 100) _ p (λ db. min_limited (unwrap_or limit (pos 50)) 100 _ db)

get_chat_history-IsPage :
    (a b : Uuid) (before limit : Option ℤ) (p : Pool)
    → Yields
        (λ found. IsPage 100 found.0)
        (get_chat_history a b before (clamp_limit limit 50 100) p)
unfolding get_chat_history
get_chat_history-IsPage a b before limit p =
    >>=-Yields (λ found. IsPage 100 found.0) (or_default [] (statement (mark_seen b a))) _ p
      λ ids q.
        paired (IsPage 100) (statement (select_history a b before (clamp_limit limit 50 100))) ids q
          (statement-Yields (IsPage 100) (select_history a b before (clamp_limit limit 50 100)) q
            (λ db.
              min_limited (unwrap_or limit (pos 50)) 100
                (map history_item (chat_page a b before db)) db))

module _ (crypto : Crypto) (secs : ℕ) (config : Config) (token : String) (s : AppState) where
  pub user_search_handler-items :
      (ilike : String → String → Bool) (q : String) (limit : Option ℤ)
      → items_of (user_search_handler crypto secs config ilike token q limit s).0.res.data_ ≤ 50
  unfolding user_search_handler
  user_search_handler-items ilike q limit =
      with_claims-Yields (HasItems 50) (omega arith) (verify_token crypto secs token config) _ s
        λ c e.
          query-Yields (HasItems 50) (omega arith) (IsPage 50)
            (search_users ilike q c.user_id (clamp_limit limit 20 50))
            (λ items t. (answer items "ok", t)) 500 "search users failed" s
            (search_users-IsPage ilike q c.user_id limit s.pool) (λ rows t b. b)

  module _ {V : Type 0} (json : Json V) where
    pub group_history_handler-items :
        (gid : Uuid) (before limit : Option ℤ)
        → items_of
            (group_history_handler crypto secs config json token gid before limit s).0.res.data_
          ≤ 100
    unfolding group_history_handler
    group_history_handler-items gid before limit =
        with_claims-Yields (HasItems 100) (omega arith) (verify_token crypto secs token config) _ s
          λ c e.
            query-Yields (HasItems 100) (omega arith) (IsPage 100)
              (get_group_history gid before (clamp_limit limit 50 100))
              (λ items t. (answer items "ok", mark_and_push json gid c.user_id t)) 500
              "query history failed" s (get_group_history-IsPage gid before limit s.pool)
              (λ rows t b. b)

    pub message_history_handler-items :
        (peer : Uuid) (before limit : Option ℤ)
        → items_of
            (message_history_handler crypto secs config json token peer before limit s).0.res.data_
          ≤ 100
    unfolding message_history_handler
    message_history_handler-items peer before limit =
        with_claims-Yields (HasItems 100) (omega arith) (verify_token crypto secs token config) _ s
          λ c e.
            query-Yields (HasItems 100) (omega arith) (λ found. IsPage 100 found.0)
              (get_chat_history c.user_id peer before (clamp_limit limit 50 100))
              (λ found t.
                (answer found.0 "ok", tell_peer crypto secs config json c.user_id peer found.1 t))
              500 "query history failed" s
              (get_chat_history-IsPage c.user_id peer before limit s.pool) (λ found t b. b)
