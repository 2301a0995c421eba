-- ===== src/Dao/Integrity/Inserts.antt =====
-- The statements of src/dao.rs that insert an account, a private message or a friend keep the keys
-- and references of init.sql.
use myx_im.Base.{
  ℕ, suc, ◌≡◌, refl, false, ◌&&◌, none, some, List, [], ◌∷◌, String, any, arith, Bool-cases,
  Option-cases, inl, inr,
}
use myx_im.Base.Rows.{All-map, any_of_All}
use myx_im.Model.{User}
use myx_im.Db.{Db, Group, ChatMessage}
use myx_im.Db.Keeps.{KeepsRows}
use myx_im.Dao.Select.{same_key}
use myx_im.Dao.Users.{has_user, named, varchar, insert_user}
use myx_im.Dao.Chat.{insert_chat_message, insert_unless_sent}
use myx_im.Dao.Friends.{are_friends, insert_friend}
use myx_im.Dao.Integrity.{with_chats, with_friends, IsIntact, Belongs, same_text}

-- Whoever is found is found in a longer table.
Belongs-user :
    (gs : List Group) (us : List User) (u : User) (gid uid : ℕ)
    → Belongs gs us gid uid
    → Belongs gs (u ∷ us) gid uid
Belongs-user gs us u gid uid (g, h) = (g, ground arith)

add_user :
    (u : User) (db : Db)
    → has_user u.id db.users ≡ false
    → any (named u.username) db.users ≡ false
    → IsIntact db
    → IsIntact (record db { users = u ∷ db.users })
add_user u db fresh new v = record {
  user_rows = ((fresh, v.user_rows.0), (new, v.user_rows.1));
  chat_rows = v.chat_rows;
  cursor_rows = v.cursor_rows;
  group_rows =
      (v.group_rows.0, v.group_rows.1, All-map _ _ db.groups (λ g h. ground arith) v.group_rows.2);
  member_rows = (
    v.member_rows.0,
    All-map _ _ db.members (λ m. Belongs-user db.groups db.users u m.group_id m.user_id)
        v.member_rows.1,
  );
  message_rows = (
    v.message_rows.0,
    v.message_rows.1,
    v.message_rows.2,
    All-map _ _ db.group_messages (λ m. Belongs-user db.groups db.users u m.group_id m.from_uid)
        v.message_rows.3,
  );
  read_rows = (
    v.read_rows.0,
    All-map _ _ db.group_read_cursors (λ c. Belongs-user db.groups db.users u c.group_id c.user_id)
        v.read_rows.1,
  );
  friend_rows = (
    v.friend_rows.0,
    All-map _ _ db.friends (λ f h. (ground arith, ground arith)) v.friend_rows.1,
  );
}

pub insert_user-IsIntact :
    (now uid : ℕ) (name hash : String) → KeepsRows IsIntact (insert_user now uid name hash)
insert_user-IsIntact now uid name hash db v = elim (Option-cases (varchar 20 name)) [
  | inl e ↦ rw e v
  | inr (stored, e) ↦ rw e (elim (Bool-cases (has_user uid db.users)) [
    | inl k ↦ rw k v
    | inr k ↦ rw k (elim (Bool-cases (any (named stored) db.users)) [
      | inl n ↦ rw n v
      | inr n ↦ rw n (
          add_user
            (record { id = uid; username = stored; password_hash = hash; created_at = some now }) db
            k n v)
    ])
  ])
]

no_text : (ms : List ChatMessage) → any (λ n. same_text n.client_msg_id none) ms ≡ false
no_text [] = refl
no_text (m ∷ ms) = no_text ms

-- A conflict uses up an id.
skip_id : (db : Db) → IsIntact db → IsIntact (record db { next_chat_id = suc db.next_chat_id })
skip_id db v =
    with_chats db v (suc db.next_chat_id) db.chat_messages (
      All-map _ _ db.chat_messages (λ m p. omega arith) v.chat_rows.0,
      v.chat_rows.1,
      v.chat_rows.2,
    )

add_chat :
    (m : ChatMessage) (db : Db)
    → m.id ≡ db.next_chat_id
    → any (λ n. same_text n.client_msg_id m.client_msg_id) db.chat_messages ≡ false
    → IsIntact db
    → IsIntact
        (record db { chat_messages = m ∷ db.chat_messages; next_chat_id = suc db.next_chat_id })
add_chat m db e new v = with_chats db v (suc db.next_chat_id) (m ∷ db.chat_messages) (
  (omega arith, All-map _ _ db.chat_messages (λ n p. omega arith) v.chat_rows.0),
  (any_of_All _ db.chat_messages (λ n p. ground arith) v.chat_rows.0, v.chat_rows.1),
  (new, v.chat_rows.2),
)

pub insert_chat_message-IsIntact :
    (now from_uid to_uid : ℕ) (content : String) (msg_type : ℕ)
    → KeepsRows IsIntact (insert_chat_message now from_uid to_uid content msg_type none)
insert_chat_message-IsIntact now from_uid to_uid content msg_type db v =
    add_chat _ db refl (no_text db.chat_messages) v

pub insert_unless_sent-IsIntact :
    (now from_uid to_uid : ℕ) (content : String) (msg_type : ℕ) (cid : String)
    → KeepsRows IsIntact (insert_unless_sent now from_uid to_uid content msg_type cid)
insert_unless_sent-IsIntact now from_uid to_uid content msg_type cid db v =
    elim (Bool-cases (any (λ m. same_key m.client_msg_id cid) db.chat_messages)) [
      | inl e ↦ rw e (skip_id db v)
      | inr e ↦ rw e (add_chat _ db refl e v)
    ]

pub insert_friend-IsIntact : (now a b : ℕ) → KeepsRows IsIntact (insert_friend now a b)
insert_friend-IsIntact now a b db v = elim (Bool-cases (are_friends a b db)) [
  | inl e ↦ rw e v
  | inr e ↦ elim (Bool-cases (has_user a db.users && has_user b db.users)) [
    | inl k ↦
        rw (e, k)
          (with_friends db v _
            ((e, v.friend_rows.0), ((ground arith, ground arith), v.friend_rows.1)))
    | inr k ↦ rw (e, k) v
  ]
]
