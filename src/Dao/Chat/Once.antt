-- ===== src/Dao/Chat/Once.antt =====
-- src/dao.rs, persist_chat_message: a message with a client id is stored once.
use text.Mathlib.TextPositions.{eq_refl}
use myx_im.Base.{
  ℕ, suc, ◌≡◌, String, Bool, true, some, List, [], ◌∷◌, arith, any, find?, inl, inr, Bool-cases,
}
use myx_im.Base.Outcome.{ok}
use myx_im.Db.{Db, ChatMessage}
use myx_im.Db.Statement.{healthy}
use myx_im.Dao.Select.{same_key}
use myx_im.Dao.Chat.{persist_chat_message, chat_row}

find?-any :
    (p : ChatMessage → Bool) (ms : List ChatMessage)
    → any p ms ≡ true
    → (m : ChatMessage) × (find? p ms ≡ some m)
find?-any p [] h = cc
find?-any p (m ∷ ms) h = elim (Bool-cases (p m)) [
  | inl e ↦ (m, rw e)
  | inr e ↦ let (n, f) = find?-any p ms (ground arith) in (n, ground arith)
]

module _ (now from_uid to_uid : ℕ) (content : String) (msg_type : ℕ) (now' from' to' : ℕ)
    (content' : String) (type' : ℕ) (cid : String) where
  -- A message with a client id is sent, and then another one with the same id, of whatever sender
  -- and content: both calls succeed and return the same message id, and the second stores nothing.
  -- No statement fails.
  pub persist_chat_message_once :
      (db : Db)
      → (id : ℕ) × (db' : Db) × (persist_chat_message now from_uid to_uid content msg_type
            (some cid)
            (healthy db)
          ≡ ok id (healthy db'))
        × (persist_chat_message now' from' to' content' type' (some cid) (healthy db')
            ≡ ok id (healthy (record db' { next_chat_id = suc db'.next_chat_id })))
  unfolding persist_chat_message
  persist_chat_message_once db =
      elim (Bool-cases (any (λ m. same_key m.client_msg_id cid) db.chat_messages)) [
        | inl e ↦
            let (m, f) = find?-any (λ m. same_key m.client_msg_id cid) db.chat_messages e in
            (
              m.id,
              record db { next_chat_id = suc db.next_chat_id },
              rw (e, f, persist_chat_message),
              rw (e, f, persist_chat_message),
            )
        | inr e ↦ (
          db.next_chat_id,
          record db {
            chat_messages =
                chat_row db now from_uid to_uid content msg_type (some cid) ∷ db.chat_messages;
            next_chat_id = suc db.next_chat_id;
          },
          rw (e, persist_chat_message),
          ground (arith, eq_refl cid),
        )
      ]
