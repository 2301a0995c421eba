-- ===== src/Dao/Chat/Seen.antt =====
-- src/dao.rs: what get_chat_history and mark_seen_from_peer do to the `seen` flags, and the page of
-- messages that a history is.
use myx_im.Base.{
  ℕ, ◌≤◌, ◌≡◌, refl, Bool, true, false, ◌&&◌, Option, List, [], ◌∷◌, arith, any, map, inl, inr,
  Bool-cases, filter, update_where, take, length, sort_by,
}
use myx_im.Base.Int.{ℤ, pos}
use myx_im.Base.Outcome.{ok}
use myx_im.Base.Rows.{All, All-filter, All-of_any, filter_none, update_where_none}
use myx_im.Base.Sorted.{
  IsSortedBy, sort_by-IsSortedBy, IsSortedBy-take, All-sort_by, All-take, length-take-le, take-map,
}
use myx_im.Db.{Db, ChatMessage}
use myx_im.Db.Statement.{healthy}
use myx_im.Dao.Select.{before_cursor}
use myx_im.Dao.Chat.{
  mark_seen_from_peer, get_chat_history, unseen_from, see, between, later_first, chat_page,
  history_item,
}

-- After the `UPDATE` no message of the peer is unseen.
none_unseen :
    (a b : ℕ) (ms : List ChatMessage)
    → any (unseen_from a b) (update_where (unseen_from a b) see ms) ≡ false
none_unseen a b [] = refl
none_unseen a b (m ∷ ms) = ground (arith, none_unseen a b ms)

abbrev pub unseen_ids : ℕ → ℕ → Db → List ℕ
unseen_ids from_uid to_uid db =
    map (λ m. m.id) (filter (unseen_from from_uid to_uid) db.chat_messages)

-- The database with the peer's messages seen.
abbrev pub seen_from : ℕ → ℕ → Db → Db
seen_from from_uid to_uid db = record db {
  chat_messages = update_where (unseen_from from_uid to_uid) see db.chat_messages;
}

-- Where no statement fails, mark_seen_from_peer returns the ids of the unseen messages of the peer,
-- and a second call returns none and changes nothing.
mark_seen_from_peer_twice :
    (a b : ℕ) (db : Db)
    → (mark_seen_from_peer a b (healthy db) ≡ ok (unseen_ids a b db) (healthy (seen_from a b db)))
      × (mark_seen_from_peer a b (healthy (seen_from a b db)) ≡ ok [] (healthy (seen_from a b db)))
unfolding mark_seen_from_peer
mark_seen_from_peer_twice a b db = (
  refl,
  rw (
    filter_none (unseen_from a b) _ (none_unseen a b db.chat_messages),
    update_where_none (unseen_from a b) see _ (none_unseen a b db.chat_messages),
  ),
)

-- What a page of the history of two users has: at most the limit, only their messages, before the
-- cursor, newest first.
pub record IsPage (a b : ℕ) (before : Option ℤ) (n : ℕ) (ms : List ChatMessage) : Type 0 where
  pub limited : length ms ≤ n
  pub theirs : All (λ m. between a b m ≡ true) ms
  pub earlier : All (λ m. before_cursor m.id before ≡ true) ms
  pub ordered : IsSortedBy later_first ms

filter-All :
    (p q : ChatMessage → Bool) (ms : List ChatMessage)
    → All (λ m. p m ≡ true) (filter (λ m. p m && q m) ms)
      × All (λ m. q m ≡ true) (filter (λ m. p m && q m) ms)
filter-All p q [] = (tt, tt)
filter-All p q (m ∷ ms) = elim (Bool-cases (p m && q m)) [
  | inl e ↦ rw e ((ground arith, (filter-All p q ms).0), (ground arith, (filter-All p q ms).1))
  | inr e ↦ rw e (filter-All p q ms)
]

pub chat_page-IsPage :
    (a b : ℕ) (before : Option ℤ) (n : ℕ) (db : Db)
    → IsPage a b before n (take n (chat_page a b before db))
chat_page-IsPage a b before n db =
    let rows = filter (λ m. between a b m && before_cursor m.id before) db.chat_messages in
    let kept = filter-All (between a b) (λ m. before_cursor m.id before) db.chat_messages in
    record {
      limited = length-take-le n (sort_by later_first rows);
      theirs = All-take _ n (sort_by later_first rows) (All-sort_by _ later_first rows kept.0);
      earlier = All-take _ n (sort_by later_first rows) (All-sort_by _ later_first rows kept.1);
      ordered =
          IsSortedBy-take later_first n (sort_by later_first rows) (
            sort_by-IsSortedBy later_first (λ x y h. ground arith) (λ x y z h k. ground arith)
              rows);
    }

page-seen :
    (a b : ℕ) (before : Option ℤ) (n : ℕ) (db : Db)
    → All (λ m. unseen_from b a m ≡ false) (take n (chat_page a b before (seen_from b a db)))
page-seen a b before n db =
    let q = λ (m : ChatMessage). between a b m && before_cursor m.id before in
    let rows = update_where (unseen_from b a) see db.chat_messages in
    All-take _ n (sort_by later_first (filter q rows)) (
      All-sort_by _ later_first (filter q rows) (
        All-filter _ q rows (All-of_any (unseen_from b a) rows (none_unseen b a db.chat_messages))))

-- On a pool where no statement fails, get_chat_history with a limit that is not negative succeeds:
-- it returns a page of the history in which no message of the peer is unseen, and the ids of the
-- peer's messages that were unseen; afterwards the peer's messages are all seen.
pub get_chat_history_lem :
    (a b : ℕ) (before : Option ℤ) (n : ℕ) (db : Db)
    → (page : List ChatMessage) × (get_chat_history a b before (pos n) (healthy db)
        ≡ ok (map history_item page, unseen_ids b a db) (healthy (seen_from b a db)))
      × IsPage a b before n page
      × All (λ m. unseen_from b a m ≡ false) page
      × (any (unseen_from b a) (seen_from b a db).chat_messages ≡ false)
unfolding get_chat_history
get_chat_history_lem a b before n db = (
  take n (chat_page a b before (seen_from b a db)),
  rw (take-map history_item n (chat_page a b before (seen_from b a db))),
  chat_page-IsPage a b before n (seen_from b a db),
  page-seen a b before n db,
  none_unseen b a db.chat_messages,
)
