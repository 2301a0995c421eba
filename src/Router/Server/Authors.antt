-- ===== src/Router/Server/Authors.antt =====
-- src/router.rs, handle_biz_msg: whose name is on what a command stores.
use text.Mathlib.TextPositions.{eq_refl}
use myx_im.Base.{
  ℕ, ◌≡◌, refl, sym, subst, ◌∙◌, String, Bool, true, ◌&&◌, ◌||◌, Option, none, some, List, [], ◌∷◌,
  any, is_some, find?, ◌==◌, same, inl, inr, arith, Bool-cases,
}
use myx_im.Base.Outcome.{Outcome, ok, err, state_of}
use myx_im.Base.Rows.{All, All-map, All-update_where, is_some-find?}
use myx_im.Db.{Db, ChatMessage, GroupMessage, Membership}
use myx_im.Db.Statement.{Pool, DbError, statement}
use myx_im.Db.Keeps.{Keeps, KeepsRows, statement-Keeps}
use myx_im.Dao.Groups.{is_membership, is_member, is_group_member, can_belong}
use myx_im.Dao.Chat.{
  insert_chat_message, insert_unless_sent, mark_seen, mark_seen_from_peer, see, unseen_from,
}
use myx_im.Dao.Select.{same_key}
use myx_im.Dao.GroupMessages.{
  insert_group_message, insert_group_unless_sent, was_sent, some_id, cursor_of,
}
use myx_im.Dao.GroupRead.{upsert_group_cursor, increment_reads, in_delta, count_read}
use myx_im.Dao.Keeps.{CommandKeeps}
use myx_im.Dao.Keeps.Chats.{persist_chat_message-Keeps}
use myx_im.Dao.Keeps.Groups.{persist_group_message-Keeps, mark_group_read-Keeps}
use myx_im.Router.App.{AppState, Json}
use myx_im.Router.Ws.{handle_biz_msg}
use myx_im.Router.Http.Yields.{Yields, statement_at-Yields}
use myx_im.Router.Server.Commands.{handle_biz_msg-KeepsState}

-- The same message: its id, sender, recipient or group, and content.
abbrev same_chat : ChatMessage → ChatMessage → Bool
same_chat m n =
    n.id == m.id && (n.from_uid == m.from_uid && (n.to_uid == m.to_uid && same n.content m.content))

abbrev same_group_chat : GroupMessage → GroupMessage → Bool
same_group_chat m n =
    n.id == m.id
    && (n.from_uid == m.from_uid && (n.group_id == m.group_id && same n.content m.content))

-- The message was there before, or it is one that the user has sent.
abbrev pub is_sent_by : Db → ℕ → ChatMessage → Bool
is_sent_by before uid m = any (same_chat m) before.chat_messages || m.from_uid == uid

-- The same of a group message, where the user was a member of its group.
abbrev pub is_sent_by_member : Db → ℕ → GroupMessage → Bool
is_sent_by_member before uid m =
    any (same_group_chat m) before.group_messages
    || (m.from_uid == uid && is_member m.group_id uid before)

pub record IsAuthored (before : Db) (uid : ℕ) (db : Db) : Type 0 where
  pub same_members : db.members ≡ before.members
  pub chats : All (λ m. is_sent_by before uid m ≡ true) db.chat_messages
  pub group_chats : All (λ m. is_sent_by_member before uid m ≡ true) db.group_messages

known :
    {A : Type 0} (f : A → A → Bool) (xs : List A)
    → ((a : A) → f a a ≡ true)
    → All (λ a. any (f a) xs ≡ true) xs
known f [] h = tt
known f (x ∷ xs) h = (ground (arith, h x), All-map _ _ xs (λ a k. ground (arith, k)) (known f xs h))

before-IsAuthored : (db : Db) (uid : ℕ) → IsAuthored db uid db
before-IsAuthored db uid = record {
  same_members = refl;
  chats =
      All-map _ _ db.chat_messages (λ m k. ground (arith, k))
        (known same_chat db.chat_messages (λ m. ground (arith, eq_refl m.content)));
  group_chats =
      All-map _ _ db.group_messages (λ m k. ground (arith, k))
        (known same_group_chat db.group_messages (λ m. ground (arith, eq_refl m.content)));
}

some_id-state : (r : Outcome Db DbError ℕ) → state_of (some_id r) ≡ state_of r
some_id-state (ok id db) = refl
some_id-state (err e db) = refl

-- Where is_group_member answers yes the user is a member.
finds_member :
    (gid uid : ℕ) (p : Pool)
    → Yields (λ found. found ≡ true → is_member gid uid p.db ≡ true) (is_group_member gid uid p)
unfolding is_group_member
finds_member gid uid p =
    asked (statement (λ db. ok (find? (is_membership gid uid) db.members) db) p) (
      statement_at-Yields (λ row. is_some row ≡ true → is_member gid uid p.db ≡ true) _ p
        (λ h. sym (is_some-find? (is_membership gid uid) p.db.members) ∙ h))
  where
    asked :
        (r : Outcome Pool DbError (Option Membership))
        → Yields (λ row. is_some row ≡ true → is_member gid uid p.db ≡ true) r
        → Yields {A = Bool}
            (λ found. found ≡ true → is_member gid uid p.db ≡ true)
            (elim r [ ok row q ↦ ok (is_some row) q | err e q ↦ err e q ])
    asked (ok row q) y = y
    asked (err e q) y = tt

module _ (before : Db) (uid : ℕ) where
  -- A change of other tables.
  aside :
      (db d : Db)
      → d.members ≡ db.members
      → d.chat_messages ≡ db.chat_messages
      → d.group_messages ≡ db.group_messages
      → IsAuthored before uid db
      → IsAuthored before uid d
  aside db d e f g v = record {
    same_members = e ∙ v.same_members;
    chats = subst (All (λ m. is_sent_by before uid m ≡ true)) (sym f) v.chats;
    group_chats = subst (All (λ m. is_sent_by_member before uid m ≡ true)) (sym g) v.group_chats;
  }

  insert_chat-Keeps :
      (now to_uid : ℕ) (content : String) (msg_type : ℕ)
      → KeepsRows (IsAuthored before uid) (insert_chat_message now uid to_uid content msg_type none)
  insert_chat-Keeps now to_uid content msg_type db v = record {
    same_members = v.same_members;
    chats = (ground arith, v.chats);
    group_chats = v.group_chats;
  }

  insert_unless_sent-Keeps :
      (now to_uid : ℕ) (content : String) (msg_type : ℕ) (cid : String)
      → KeepsRows (IsAuthored before uid) (insert_unless_sent now uid to_uid content msg_type cid)
  insert_unless_sent-Keeps now to_uid content msg_type cid db v =
      elim (Bool-cases (any (λ m. same_key m.client_msg_id cid) db.chat_messages)) [
        | inl e ↦ rw e (aside db _ refl refl refl v)
        | inr e ↦ rw e (record {
          same_members = v.same_members;
          chats = (ground arith, v.chats);
          group_chats = v.group_chats;
        })
      ]

  seen-Keeps : (peer : ℕ) → KeepsRows (IsAuthored before uid) (mark_seen peer uid)
  seen-Keeps peer db v = record {
    same_members = v.same_members;
    chats =
        All-update_where (λ m. is_sent_by before uid m ≡ true) _ (unseen_from peer uid) see
          db.chat_messages
          (λ m h. elim (Bool-cases (unseen_from peer uid m)) [ inl e ↦ rw e h | inr e ↦ rw e h ])
          v.chats;
    group_chats = v.group_chats;
  }

  count-Keeps :
      (gid old last viewer : ℕ)
      → KeepsRows (IsAuthored before uid) (increment_reads gid old last viewer)
  count-Keeps gid old last viewer db v = record {
    same_members = v.same_members;
    chats = v.chats;
    group_chats =
        All-update_where (λ m. is_sent_by_member before uid m ≡ true) _
          (in_delta gid old last viewer) count_read db.group_messages
          (λ m h. elim (Bool-cases (in_delta gid old last viewer m)) [
            | inl e ↦ rw e h
            | inr e ↦ rw e h
          ])
          v.group_chats;
  }

  cursor-Keeps :
      (viewer gid last : ℕ)
      → KeepsRows (IsAuthored before uid) (upsert_group_cursor viewer gid last)
  cursor-Keeps viewer gid last db v =
      elim (Bool-cases (any (cursor_of viewer gid) db.group_read_cursors)) [
        | inl e ↦ rw e (aside db _ refl refl refl v)
        | inr e ↦ elim (Bool-cases (can_belong gid viewer db)) [
          | inl b ↦ rw (e, b) (aside db _ refl refl refl v)
          | inr b ↦ rw (e, b) v
        ]
      ]

  -- In the module: the user is a member of the group.
  module _ (gid : ℕ) (member : is_member gid uid before ≡ true) where
    insert_group_chat-Keeps :
        (now : ℕ) (content : String) (msg_type : ℕ) (cid : Option String)
        → KeepsRows (IsAuthored before uid) (insert_group_message now gid uid content msg_type cid)
    insert_group_chat-Keeps now content msg_type cid db v =
        elim (Bool-cases (can_belong gid uid db)) [
          | inl e ↦ rw e (record {
            same_members = v.same_members;
            chats = v.chats;
            group_chats = (ground (arith, member), v.group_chats);
          })
          | inr e ↦ rw e (aside db _ refl refl refl v)
        ]

    insert_group_unless_sent-Keeps :
        (now : ℕ) (content : String) (msg_type : ℕ) (cid : String)
        → KeepsRows
            (IsAuthored before uid)
            (insert_group_unless_sent now gid uid content msg_type cid)
    insert_group_unless_sent-Keeps now content msg_type cid db v =
        elim (Bool-cases (any (was_sent cid) db.group_messages)) [
          | inl e ↦ rw e (aside db _ refl refl refl v)
          | inr e ↦ rw e (
              subst (IsAuthored before uid)
                (sym
                  (some_id-state (insert_group_message now gid uid content msg_type (some cid) db)))
                (insert_group_chat-Keeps now content msg_type (some cid) db v))
        ]

  found_before :
      (gid : ℕ) (p q : Pool)
      → IsAuthored before uid p.db
      → is_group_member gid uid p ≡ ok true q
      → is_member gid uid before ≡ true
  found_before gid p q v e =
      subst (λ ms. any (is_membership gid uid) ms ≡ true) v.same_members
        (subst (Yields (λ found. found ≡ true → is_member gid uid p.db ≡ true)) e
          (finds_member gid uid p) refl)

  seen_from_peer-Keeps : (peer : ℕ) → Keeps (IsAuthored before uid) (mark_seen_from_peer peer uid)
  unfolding mark_seen_from_peer
  seen_from_peer-Keeps peer =
      statement-Keeps (IsAuthored before uid) (mark_seen peer uid) (seen-Keeps peer)

  IsAuthored-CommandKeeps :
      CommandKeeps (IsAuthored before uid) uid (λ gid. is_member gid uid before ≡ true)
  IsAuthored-CommandKeeps = record {
    private-Keeps =
        persist_chat_message-Keeps (IsAuthored before uid) uid insert_chat-Keeps
          insert_unless_sent-Keeps;
    seen-Keeps = seen_from_peer-Keeps;
    read-Keeps =
        λ gid. mark_group_read-Keeps (IsAuthored before uid) cursor-Keeps count-Keeps gid uid;
    found = found_before;
    group-Keeps = λ now gid content msg_type cid member.
        persist_group_message-Keeps (IsAuthored before uid) gid uid
          (λ now' content' msg_type'.
            insert_group_chat-Keeps gid member now' content' msg_type' none)
          (insert_group_unless_sent-Keeps gid member) now content msg_type cid;
  }

-- Whatever a client sends on its connection, and whichever statements fail: each private message in
-- the table afterwards was there before, with its id, sender, recipient and content, or has the user
-- of the connection as its sender; each group message was there before, with its id, sender, group
-- and content, or has the user as its sender and is in a group that the user was a member of; and
-- nobody has joined or left a group.
pub handle_biz_msg-IsAuthored :
    {V : Type 0} (json : Json V) (uid tx now send_time : ℕ) (text : String) (s : AppState)
    → IsAuthored s.pool.db uid (handle_biz_msg json uid tx now send_time text s).pool.db
handle_biz_msg-IsAuthored json uid tx now send_time text s =
    (handle_biz_msg-KeepsState (IsAuthored s.pool.db uid) json uid tx
        (λ gid. is_member gid uid s.pool.db ≡ true) (IsAuthored-CommandKeeps s.pool.db uid) now
        send_time text).keeps
      s (before-IsAuthored s.pool.db uid)
