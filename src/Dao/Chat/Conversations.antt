-- ===== src/Dao/Chat/Conversations.antt =====
-- src/dao.rs: get_conversations against get_chat_history. Its `DISTINCT ON` leaves of each peer the
-- first message of the history with that peer.
use myx_im.Base.{
  ◌≡◌, refl, sym, ◌∙◌, ap, Bool, true, false, ◌&&◌, ◌||◌, Option, none, some, List, [], ◌∷◌, map,
  filter, is_some, take, ◌==◌, sort_by, inl, inr, arith, Bool-cases, ◌<◌,
}
use myx_im.Base.Outcome.{ok}
use myx_im.Base.Rows.{All, is_some-find?}
use myx_im.Base.Sorted.{sort_by-IsSortedBy, filter-sort_by}
use myx_im.Model.{Uuid, ConversationItem, User}
use myx_im.Db.{Db, ChatMessage}
use myx_im.Db.Statement.{healthy}
use myx_im.Dao.Select.{user_row, before_cursor}
use myx_im.Dao.Chat.{
  peer_of, by_peer, distinct_on, conversation_item, has_peer, join_peer, get_conversations, between,
  later_first, chat_page,
}
use myx_im.Dao.Chat.Distinct.{
  is_with, same_peer, distinct_on_first, by_peer_total, by_peer_trans, same_order,
}

filter-filter :
    {A : Type 0} (p q r : A → Bool) (P : A → Type 0) (xs : List A)
    → ((a : A) → P a → (q a && p a) ≡ r a)
    → All P xs
    → filter p (filter q xs) ≡ filter r xs
filter-filter p q r P [] h a = refl
filter-filter p q r P (x ∷ xs) h a = elim (Bool-cases (q x)) [
  | inl e ↦ elim (Bool-cases (p x)) [
    | inl k ↦ rw (e, k, sym (h x a.0), e, k, filter-filter p q r P xs h a.1) refl
    | inr k ↦ rw (e, k, sym (h x a.0), e, k, filter-filter p q r P xs h a.1) refl
  ]
  | inr e ↦ rw (e, sym (h x a.0), e, filter-filter p q r P xs h a.1) refl
]

module _ (uid p : Uuid) (u : User) (users : List User) (found : user_row p users ≡ some u) where
  row_of : (q : Uuid) → q ≡ p → user_row q users ≡ some u
  row_of q h = rw h found

  abbrev joined : ChatMessage → List ConversationItem → Option User → List ConversationItem
  joined m rest none = rest
  joined m rest (some v) = conversation_item uid m v ∷ rest

  not_joined :
      (m : ChatMessage) (rest : List ConversationItem) (r : Option User)
      → is_with uid p m ≡ false
      → filter (λ i. i.peer_uid == p) (joined m rest r) ≡ filter (λ i. i.peer_uid == p) rest
  not_joined m rest none e = refl
  not_joined m rest (some v) e = rw e refl

  join_peer-filter :
      (ms : List ChatMessage)
      → filter (λ i. i.peer_uid == p) (join_peer uid users ms)
        ≡ map (λ m. conversation_item uid m u) (filter (is_with uid p) ms)
  join_peer-filter [] = refl
  join_peer-filter (m ∷ ms) = elim (Bool-cases (is_with uid p m)) [
    | inl e ↦
        ap (λ r. filter (λ i. i.peer_uid == p) (joined m (join_peer uid users ms) r))
          (row_of (peer_of uid m) (same_peer uid p m e))
        ∙ rw (e, join_peer-filter ms) refl
    | inr e ↦
        not_joined m (join_peer uid users ms) (user_row (peer_of uid m) users) e
        ∙ rw (e, join_peer-filter ms) refl
  ]

  has_peer-true : (m : ChatMessage) → is_with uid p m ≡ true → has_peer uid users m ≡ true
  has_peer-true m e =
      sym (is_some-find? (λ v. v.id == peer_of uid m) users)
      ∙ ap is_some (row_of (peer_of uid m) (same_peer uid p m e))

  -- The condition of get_conversations, for one peer, is that of the history.
  same_condition :
      (m : ChatMessage)
      → m.id < 9223372036854775807
      → (((m.from_uid == uid || m.to_uid == uid) && has_peer uid users m) && is_with uid p m)
        ≡ (between uid p m && before_cursor m.id none)
  same_condition m h = elim (Bool-cases (is_with uid p m)) [
    | inl e ↦ rw (has_peer-true m e) (ground (arith, e))
    | inr e ↦ rw e (ground (arith, e))
  ]

-- Where no statement fails and the ids of private messages are below the largest bigint, the entry of
-- get_conversations for a peer with an account is the first message of the history with that peer,
-- with the peer's name: there is one where there is a message between the two, and never a second
-- one.
pub get_conversations-first :
    (uid p : Uuid) (u : User) (db : Db)
    → user_row p db.users ≡ some u
    → All (λ m. m.id < 9223372036854775807) db.chat_messages
    → (items : List ConversationItem) × (get_conversations uid (healthy db) ≡ ok items (healthy db))
      × (filter (λ i. i.peer_uid == p) items
          ≡ map (λ m. conversation_item uid m u) (take 1 (chat_page uid p none db)))
unfolding get_conversations
get_conversations-first uid p u db found bounded =
    let mine : ChatMessage → Bool =
      λ m. (m.from_uid == uid || m.to_uid == uid) && has_peer uid db.users m in
    let sorted : List ChatMessage = sort_by (by_peer uid) (filter mine db.chat_messages) in
    (
      join_peer uid db.users (distinct_on uid none sorted),
      refl,
      join_peer-filter uid p u db.users found (distinct_on uid none sorted)
          ∙ ap (map (λ m. conversation_item uid m u)) (
              distinct_on_first uid p none sorted refl (
                sort_by-IsSortedBy (by_peer uid) (by_peer_total uid) (by_peer_trans uid)
                  (filter mine db.chat_messages))
              ∙ ap (take 1) (
                  filter-sort_by (by_peer uid) (by_peer_total uid) (by_peer_trans uid)
                    (is_with uid p) later_first (same_order uid p) (filter mine db.chat_messages)
                  ∙ ap (sort_by later_first) (
                      filter-filter (is_with uid p) mine _ _ db.chat_messages
                        (same_condition uid p u db.users found) bounded))),
    )
