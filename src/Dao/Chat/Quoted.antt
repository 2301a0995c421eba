-- ===== src/Dao/Chat/Quoted.antt =====
-- src/dao.rs, get_conversations: whose messages its entries quote.
use mathlib.Core.List.{Memᴰ}
use myx_im.Base.{
  ◌≡◌, refl, Bool, true, ◌&&◌, ◌||◌, Option, none, some, List, [], ◌∷◌, filter, sort_by, inl, inr,
  ◌==◌, arith, Bool-cases, Option-cases,
}
use myx_im.Base.Rows.{All, All-map}
use myx_im.Base.Sorted.{All-sort_by}
use myx_im.Model.{Uuid, User, ConversationItem}
use myx_im.Db.{Db, ChatMessage}
use myx_im.Dao.Select.{user_row}
use myx_im.Dao.Chat.{peer_of, by_peer, distinct_on, has_peer, join_peer, between}

-- The entry quotes a row of the table, one between the user and the peer that the entry names.
abbrev pub IsQuoted : List ChatMessage → Uuid → ConversationItem → Type 0
IsQuoted ms uid i =
    (m : ChatMessage) × Memᴰ m ms × (between uid i.peer_uid m ≡ true) × (i.last_msg ≡ m.content)

-- A row of the table that the user has sent or received.
abbrev IsOwnRow : List ChatMessage → Uuid → ChatMessage → Type 0
IsOwnRow ms uid m = Memᴰ m ms × ((m.from_uid == uid || m.to_uid == uid) ≡ true)

rows-Memᴰ : (ms : List ChatMessage) → All (λ m. Memᴰ m ms) ms
rows-Memᴰ [] = tt
rows-Memᴰ (m ∷ ms) = (Memᴰ.head refl, All-map _ _ ms (λ a h. Memᴰ.tail h) (rows-Memᴰ ms))

own-All :
    (uid : Uuid) (all : List ChatMessage) (q : ChatMessage → Bool) (ms : List ChatMessage)
    → All (λ m. Memᴰ m all) ms
    → All (IsOwnRow all uid) (filter (λ m. (m.from_uid == uid || m.to_uid == uid) && q m) ms)
own-All uid all q [] h = tt
own-All uid all q (m ∷ ms) h = elim (Bool-cases ((m.from_uid == uid || m.to_uid == uid) && q m)) [
  | inl e ↦ rw e ((h.0, ground arith), own-All uid all q ms h.1)
  | inr e ↦ rw e (own-All uid all q ms h.1)
]

distinct_on-All :
    (P : ChatMessage → Type 0) (uid : Uuid) (last : Option Uuid) (ms : List ChatMessage)
    → All P ms
    → All P (distinct_on uid last ms)
distinct_on-All P uid last [] h = tt
distinct_on-All P uid none (m ∷ ms) h = (h.0, distinct_on-All P uid (some (peer_of uid m)) ms h.1)
distinct_on-All P uid (some p) (m ∷ ms) h =
    let rest = distinct_on-All P uid (some (peer_of uid m)) ms h.1 in
    elim (Bool-cases (peer_of uid m == p)) [ inl e ↦ rw e rest | inr e ↦ rw e (h.0, rest) ]

own-between :
    (uid : Uuid) (m : ChatMessage)
    → (m.from_uid == uid || m.to_uid == uid) ≡ true
    → between uid (peer_of uid m) m ≡ true
own-between uid m h = ground arith

joined-IsQuoted :
    (all : List ChatMessage) (uid : Uuid) (users : List User) (ms : List ChatMessage)
    → All (IsOwnRow all uid) ms
    → All (IsQuoted all uid) (join_peer uid users ms)
joined-IsQuoted all uid users [] h = tt
joined-IsQuoted all uid users (m ∷ ms) h = elim (Option-cases (user_row (peer_of uid m) users)) [
  | inl e ↦ rw (All, e) (joined-IsQuoted all uid users ms h.1)
  | inr (u, e) ↦
      rw (All, e) ((m, h.0.0, own-between uid m h.0.1, refl), joined-IsQuoted all uid users ms h.1)
]

-- Every entry quotes a row of the user's own.
pub conversations-IsQuoted :
    (uid : Uuid) (db : Db)
    → All (IsQuoted db.chat_messages uid) (
        join_peer uid db.users (
          distinct_on uid none (
            sort_by (by_peer uid) (
              filter
                (λ m. (m.from_uid == uid || m.to_uid == uid) && has_peer uid db.users m)
                db.chat_messages))))
conversations-IsQuoted uid db =
    let mine =
      filter (λ m. (m.from_uid == uid || m.to_uid == uid) && has_peer uid db.users m)
        db.chat_messages in
    joined-IsQuoted db.chat_messages uid db.users
      (distinct_on uid none (sort_by (by_peer uid) mine))
      (distinct_on-All (IsOwnRow db.chat_messages uid) uid none (sort_by (by_peer uid) mine) (
        All-sort_by _ (by_peer uid) mine (
          own-All uid db.chat_messages (has_peer uid db.users) db.chat_messages
            (rows-Memᴰ db.chat_messages))))
