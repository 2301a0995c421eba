-- ===== src/Router/Sync/Later.antt =====
-- src/router.rs: a private message and the next connection of its recipient.
use myx_im.Base.{
  ℕ, suc, ◌<◌, ◌≤◌, ◌≡◌, refl, sym, ◌∙◌, ap, subst, String, Bool, true, false, not, ◌&&◌, none,
  some, List, [], ◌∷◌, ◌++◌, map, filter, length, count_if, sort_by, ◌==◌, ==_refl, arith,
}
use mathlib.Core.List.{append_assoc, map-append}
use myx_im.Base.Int.{pos}
use myx_im.Base.Outcome.{Outcome, ok}
use myx_im.Base.Rows.{All, All-map, All-filter, length-filter}
use myx_im.Base.Sorted.{insert_last, All-sort_by, length-sort_by, take_of_length-le}
use myx_im.Model.{ChatHistoryItem, GroupHistoryItem}
use myx_im.Model.Wire.{PrivateChatReq, PrivatePushMsg, GroupPushMsg}
use myx_im.Db.{Db, ChatMessage}
use myx_im.Db.Statement.{Pool, DbError, healthy}
use myx_im.Dao.Chat.{
  persist_chat_message, get_unseen_messages, history_item, earlier_first, chat_row,
}
use myx_im.Dao.Integrity.{IsIntact}
use myx_im.Dao.GroupMessages.{get_unseen_group_messages}
use myx_im.State.{Online, Frame}
use myx_im.Router.App.{Json, parsed}
use myx_im.Router.Ws.{private_chat}
use myx_im.Router.Sync.{sync}
use myx_im.Router.Sync.Sends.{Sends}
use myx_im.Router.Sync.Order.{sync-Sends, private_frame, group_frame}

abbrev pub unseen_to : ℕ → ChatMessage → Bool
unseen_to uid m = m.to_uid == uid && not m.seen

-- What get_unseen_messages finds, without its limit.
abbrev unseen_items : ℕ → List ChatMessage → List ChatHistoryItem
unseen_items uid ms = map history_item (sort_by earlier_first (filter (unseen_to uid) ms))

length-map : {A B : Type 0} (f : A → B) (xs : List A) → length (map f xs) ≡ length xs
length-map f [] = refl
length-map f (x ∷ xs) = ap suc (length-map f xs)

length-unseen_items :
    (uid : ℕ) (ms : List ChatMessage) → length (unseen_items uid ms) ≡ count_if (unseen_to uid) ms
length-unseen_items uid ms =
    length-map history_item (sort_by earlier_first (filter (unseen_to uid) ms))
    ∙ length-sort_by earlier_first (filter (unseen_to uid) ms)
    ∙ length-filter (unseen_to uid) ms

-- A new message is the last of the unseen ones.
unseen_items-new :
    (uid : ℕ) (m : ChatMessage) (ms : List ChatMessage)
    → unseen_to uid m ≡ true
    → All (λ n. n.id < m.id) ms
    → unseen_items uid (m ∷ ms) ≡ unseen_items uid ms ++ history_item m ∷ []
unseen_items-new uid m ms e h =
    let older = sort_by earlier_first (filter (unseen_to uid) ms) in
    let last : All (λ n. earlier_first m n ≡ false) older =
      All-sort_by _ earlier_first _
        (All-filter _ (unseen_to uid) ms (All-map _ _ ms (λ n l. ground arith) h)) in
    rw e (
      ap (map history_item) (insert_last earlier_first m older last)
      ∙ map-append history_item older (m ∷ []))

-- With fewer than the limit all are found.
get_unseen_all :
    (uid : ℕ) (db : Db)
    → count_if (unseen_to uid) db.chat_messages ≤ 200
    → get_unseen_messages uid (pos 200) (healthy db)
      ≡ ok (unseen_items uid db.chat_messages) (healthy db)
unfolding get_unseen_messages
get_unseen_all uid db h =
    ap (λ l. ok l (healthy db))
      (take_of_length-le 200 (unseen_items uid db.chat_messages)
        (omega (arith, length-unseen_items uid db.chat_messages)))

frames-new :
    {A : Type 0} (f : A → Frame) (xs : List A) (x : A) (ys : List Frame)
    → map f (xs ++ x ∷ []) ++ ys ≡ map f xs ++ f x ∷ ys
frames-new f xs x ys =
    ap (λ l. l ++ ys) (map-append f xs (x ∷ [])) ∙ append_assoc (map f xs) (f x ∷ []) ys

same_answer :
    {A : Type 0} {x y : A} {p q : Pool} (r : Outcome Pool DbError A)
    → r ≡ ok x p
    → r ≡ ok y q
    → x ≡ y
same_answer r e f = ground arith

module _ {V : Type 0} (json : Json V) (text : PrivatePushMsg → String)
    (group_text : GroupPushMsg → String)
    (written : (m : PrivatePushMsg) → json.private_push m ≡ some (text m))
    (group_written : (m : GroupPushMsg) → json.group_push m ≡ some (group_text m)) where
  module _ (uid tx now send_time seq : ℕ) (payload : V) (req : PrivateChatReq) (db : Db)
      (online : Online) (is_req : json.private_chat_req payload ≡ parsed req)
      (no_key : req.client_msg_id ≡ none) where
    abbrev row : ChatMessage
    row = chat_row db now uid req.to_uid req.content req.msg_type none

    abbrev stored : Db
    stored = record db {
      chat_messages = row ∷ db.chat_messages;
      next_chat_id = suc db.next_chat_id;
    }

    private_chat-pool :
        (private_chat json uid tx now send_time seq payload
          (record { pool = healthy db; online = online })).pool
        ≡ healthy stored
    unfolding private_chat persist_chat_message
    private_chat-pool = ground arith

    -- Whether or not a private message was pushed, the next connection of its recipient, on any
    -- channel that has its receiver and whoever is online then, is sent it once: behind the pushes of
    -- the messages that were unseen before, in their order, and ahead of those of groups. Fewer than
    -- 200 messages were unseen, the tables meet the keys of init.sql, the client gave no id, every
    -- push can be written and no statement fails.
    pub private_chat-sync :
        IsIntact db
        → count_if (unseen_to req.to_uid) db.chat_messages < 200
        → (later : Online) (c : ℕ) → (later.channels c).open_ ≡ true
        → let to_client = private_frame json req.to_uid c text group_text written group_written in
          let to_group = group_frame json req.to_uid c text group_text written group_written in
          let sent =
            private_chat json uid tx now send_time seq payload
              (record { pool = healthy db; online = online }) in
          (older : List ChatHistoryItem) × (groups : List GroupHistoryItem) × (get_unseen_messages
              req.to_uid
              (pos 200)
              (healthy db)
            ≡ ok older (healthy db))
          × (get_unseen_group_messages req.to_uid (pos 200) sent.pool ≡ ok groups sent.pool)
          × Sends c
              (map (to_client db.users) older
                ++ to_client db.users (history_item row) ∷ map to_group groups)
              (record sent { online = later })
              (sync json req.to_uid c (record sent { online = later }))
    private_chat-sync v few later c o =
        let to_client = private_frame json req.to_uid c text group_text written group_written in
        let to_group = group_frame json req.to_uid c text group_text written group_written in
        let (privates, groups, f, g, sends) =
          sync-Sends json req.to_uid c text group_text written group_written stored later o in
        let older = unseen_items req.to_uid db.chat_messages in
        let is_unseen : unseen_to req.to_uid row ≡ true = ground (arith, ==_refl req.to_uid) in
        let all =
          same_answer _ f (get_unseen_all req.to_uid stored (ground (arith, is_unseen)))
          ∙ unseen_items-new req.to_uid row db.chat_messages is_unseen v.chat_rows.0 in
        let frames =
          ap (λ l. map (to_client db.users) l ++ map to_group groups) all
          ∙ frames-new (to_client db.users) older (history_item row) (map to_group groups) in
        let pool = private_chat-pool in
        let news =
          map (to_client db.users) older
          ++ to_client db.users (history_item row) ∷ map to_group groups in
        let sent_by : Pool → List Frame → Type 0 = λ p msgs.
          Sends c msgs (record { pool = p; online = later })
            (sync json req.to_uid c (record { pool = p; online = later })) in
        (
          older,
          groups,
          get_unseen_all req.to_uid db (omega arith),
          subst (λ p. get_unseen_group_messages req.to_uid (pos 200) p ≡ ok groups p) (sym pool) g,
          subst (λ p. sent_by p news) (sym pool) (subst (sent_by (healthy stored)) frames sends),
        )
