-- ===== src/Router/Http/Privacy.antt =====
-- src/router.rs and src/dao.rs: whose messages the private history and the conversations hold.
use myx_im.Base.{
  ◌≡◌, ℕ, String, Bool, true, ◌&&◌, ◌||◌, ◌==◌, Option, none, some, List, [], ◌∷◌, map,
}
use myx_im.Base.Int.{ℤ, pos, negsuc}
use myx_im.Base.Rows.{All}
use myx_im.Base.Sorted.{take-map}
use myx_im.Model.{Uuid, ChatHistoryItem, ConversationItem}
use myx_im.Db.{Db, ChatMessage}
use myx_im.Db.Statement.{Pool, or_default, statement}
use myx_im.Jwt.{Config, Crypto, Claims, verify_token}
use myx_im.Service.{answer}
use myx_im.Dao.Chat.{get_chat_history, select_history, chat_page, history_item, mark_seen, between}
use myx_im.Dao.Chat.{get_conversations, select_conversations}
use myx_im.Dao.Chat.Quoted.{IsQuoted, conversations-IsQuoted}
use myx_im.Dao.Chat.Seen.{chat_page-IsPage}
use myx_im.Router.App.{AppState, Json}
use myx_im.Router.Http.{clamp_limit, tell_peer, message_history_handler, conversations_handler}
use myx_im.Router.Http.Yields.{
  Yields, statement-Yields, statement_at-Yields, >>=-Yields, paired, query-Yields,
  with_claims-Yields,
}

-- A message that one of the two users sent to the other.
abbrev pub exchanged : Uuid → Uuid → ChatHistoryItem → Bool
exchanged a b i = (i.from_uid == a && i.to_uid == b) || (i.from_uid == b && i.to_uid == a)

abbrev pub AllExchanged : Uuid → Uuid → List ChatHistoryItem → Type 0
AllExchanged a b = All (λ i. exchanged a b i ≡ true)

items-AllExchanged :
    (a b : Uuid) (ms : List ChatMessage)
    → All (λ m. between a b m ≡ true) ms
    → AllExchanged a b (map history_item ms)
items-AllExchanged a b [] h = tt
items-AllExchanged a b (m ∷ ms) h = (h.0, items-AllExchanged a b ms h.1)

select_history-AllExchanged :
    (a b : Uuid) (before : Option ℤ) (limit : ℤ) (db : Db)
    → Yields (AllExchanged a b) (select_history a b before limit db)
select_history-AllExchanged a b before (pos n) db =
    rw (take-map history_item n (chat_page a b before db))
      (items-AllExchanged a b _ (chat_page-IsPage a b before n db).theirs)
select_history-AllExchanged a b before (negsuc n) db = tt

get_chat_history-AllExchanged :
    (a b : Uuid) (before : Option ℤ) (limit : ℤ) (p : Pool)
    → Yields (λ found. AllExchanged a b found.0) (get_chat_history a b before limit p)
unfolding get_chat_history
get_chat_history-AllExchanged a b before limit p =
    >>=-Yields (λ found. AllExchanged a b found.0) (or_default [] (statement (mark_seen b a))) _ p
      λ ids q. paired (AllExchanged a b) (statement (select_history a b before limit)) ids q (
        statement-Yields (AllExchanged a b) (select_history a b before limit) q
          (select_history-AllExchanged a b before limit))

abbrev pub rows_of : {A : Type 0} → Option (List A) → List A
rows_of none = []
rows_of (some rows) = rows

module _ (crypto : Crypto) (secs : ℕ) (config : Config) where
  -- The message is one between the user whose token was accepted and the peer.
  abbrev pub IsOwn : String → Uuid → ChatHistoryItem → Type 0
  IsOwn token peer i =
      (c : Claims) × (verify_token crypto secs token config ≡ some c)
      × (exchanged c.user_id peer i ≡ true)

  items-IsOwn :
      (token : String) (peer : Uuid) (c : Claims)
      → verify_token crypto secs token config ≡ some c
      → (items : List ChatHistoryItem) → AllExchanged c.user_id peer items
      → All (IsOwn token peer) items
  items-IsOwn token peer c e [] h = tt
  items-IsOwn token peer c e (i ∷ items) h = ((c, e, h.0), items-IsOwn token peer c e items h.1)

  pub message_history_handler-IsOwn :
      {V : Type 0} (json : Json V) (token : String) (peer : Uuid) (before limit : Option ℤ)
      (s : AppState)
      → All (IsOwn token peer) (
          rows_of
            (message_history_handler crypto secs config json token peer before limit s).0.res.data_)
  unfolding message_history_handler
  message_history_handler-IsOwn json token peer before limit s =
      let P = λ (body : Option (List ChatHistoryItem)). All (IsOwn token peer) (rows_of body) in
      with_claims-Yields P tt (verify_token crypto secs token config) _ s λ c e.
        query-Yields P tt (λ found. AllExchanged c.user_id peer found.0)
          (get_chat_history c.user_id peer before (clamp_limit limit 50 100))
          (λ found t.
            (answer found.0 "ok", tell_peer crypto secs config json c.user_id peer found.1 t))
          500 "query history failed" s
          (get_chat_history-AllExchanged c.user_id peer before (clamp_limit limit 50 100) s.pool)
          (λ found t h. items-IsOwn token peer c e found.0 h)

  -- The entry quotes a message between the user whose token was accepted and the peer it names.
  abbrev pub IsOwnQuote : List ChatMessage → String → ConversationItem → Type 0
  IsOwnQuote ms token i =
      (c : Claims) × (verify_token crypto secs token config ≡ some c) × IsQuoted ms c.user_id i

  items-IsOwnQuote :
      (ms : List ChatMessage) (token : String) (c : Claims)
      → verify_token crypto secs token config ≡ some c
      → (items : List ConversationItem) → All (IsQuoted ms c.user_id) items
      → All (IsOwnQuote ms token) items
  items-IsOwnQuote ms token c e [] h = tt
  items-IsOwnQuote ms token c e (i ∷ items) h =
      ((c, e, h.0), items-IsOwnQuote ms token c e items h.1)

  pub conversations_handler-IsOwnQuote :
      (token : String) (s : AppState)
      → All
          (IsOwnQuote s.pool.db.chat_messages token)
          (rows_of (conversations_handler crypto secs config token s).0.res.data_)
  unfolding conversations_handler get_conversations
  conversations_handler-IsOwnQuote token s =
      let P = λ (body : Option (List ConversationItem)).
        All (IsOwnQuote s.pool.db.chat_messages token) (rows_of body) in
      with_claims-Yields P tt (verify_token crypto secs token config) _ s λ c e.
        query-Yields P tt (All (IsQuoted s.pool.db.chat_messages c.user_id))
          (get_conversations c.user_id) (λ items t. (answer items "ok", t)) 500
          "query conversations failed" s
          (statement_at-Yields (All (IsQuoted s.pool.db.chat_messages c.user_id))
            (select_conversations c.user_id) s.pool (conversations-IsQuoted c.user_id s.pool.db))
          (λ items t h. items-IsOwnQuote s.pool.db.chat_messages token c e items h)
