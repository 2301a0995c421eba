-- ===== src/Dao/Integrity/GroupInserts.antt =====
-- The statements of src/dao.rs that insert a group, a member or a group message keep the keys and
-- references of init.sql.
use myx_im.Base.{
  ℕ, suc, ◌≡◌, refl, true, false, none, List, [], ◌∷◌, String, any, arith, Bool-cases, Option-cases,
  inl, inr,
}
use myx_im.Base.Rows.{All-map, any_of_All}
use myx_im.Model.{User}
use myx_im.Db.{Db, Group, GroupMessage}
use myx_im.Db.Keeps.{KeepsRows}
use myx_im.Dao.Users.{has_user, varchar}
use myx_im.Dao.Groups.{
  has_group, can_belong, owns_name, is_member, insert_group, insert_owner, insert_member,
}
use myx_im.Dao.GroupMessages.{insert_group_message, insert_group_unless_sent, was_sent}
use myx_im.Dao.Integrity.{with_members, with_messages, IsIntact, Belongs, same_text}

Belongs-group :
    (gs : List Group) (us : List User) (g : Group) (gid uid : ℕ)
    → Belongs gs us gid uid
    → Belongs (g ∷ gs) us gid uid
Belongs-group gs us g gid uid (h, u) = (ground arith, u)

no_group_text : (ms : List GroupMessage) → any (λ n. same_text n.client_msg_id none) ms ≡ false
no_group_text [] = refl
no_group_text (m ∷ ms) = no_group_text ms

add_member :
    (now gid uid : ℕ) (db : Db)
    → is_member gid uid db ≡ false
    → can_belong gid uid db ≡ true
    → IsIntact db
    → IsIntact (record db {
      members = record { group_id = gid; user_id = uid; joined_at = now } ∷ db.members;
    })
add_member now gid uid db new b v =
    with_members db v _ ((new, v.member_rows.0), ((ground arith, ground arith), v.member_rows.1))

pub insert_owner-IsIntact : (now gid uid : ℕ) → KeepsRows IsIntact (insert_owner now gid uid)
insert_owner-IsIntact now gid uid db v = elim (Bool-cases (is_member gid uid db)) [
  | inl e ↦ rw e v
  | inr e ↦ rw e (elim (Bool-cases (can_belong gid uid db)) [
    | inl b ↦ rw b (add_member now gid uid db e b v)
    | inr b ↦ rw b v
  ])
]

pub insert_member-IsIntact : (now gid uid : ℕ) → KeepsRows IsIntact (insert_member now gid uid)
insert_member-IsIntact now gid uid db v = elim (Bool-cases (is_member gid uid db)) [
  | inl e ↦ rw e v
  | inr e ↦ rw e (elim (Bool-cases (can_belong gid uid db)) [
    | inl b ↦ rw b (add_member now gid uid db e b v)
    | inr b ↦ rw b v
  ])
]

add_group :
    (g : Group) (db : Db)
    → has_group g.id db.groups ≡ false
    → any (owns_name g.owner_uid g.name) db.groups ≡ false
    → has_user g.owner_uid db.users ≡ true
    → IsIntact db
    → IsIntact (record db { groups = g ∷ db.groups })
add_group g db fresh new owner v = record {
  user_rows = v.user_rows;
  chat_rows = v.chat_rows;
  cursor_rows = v.cursor_rows;
  group_rows = ((fresh, v.group_rows.0), (new, v.group_rows.1), (owner, v.group_rows.2));
  member_rows = (
    v.member_rows.0,
    All-map _ _ db.members (λ m. Belongs-group db.groups db.users g m.group_id m.user_id)
        v.member_rows.1,
  );
  message_rows = (
    v.message_rows.0,
    v.message_rows.1,
    v.message_rows.2,
    All-map _ _ db.group_messages (λ m. Belongs-group db.groups db.users g m.group_id m.from_uid)
        v.message_rows.3,
  );
  read_rows = (
    v.read_rows.0,
    All-map _ _ db.group_read_cursors (λ c. Belongs-group db.groups db.users g c.group_id c.user_id)
        v.read_rows.1,
  );
  friend_rows = v.friend_rows;
}

pub insert_group-IsIntact :
    (now gid : ℕ) (name : String) (owner : ℕ) → KeepsRows IsIntact (insert_group now gid name owner)
insert_group-IsIntact now gid name owner db v = elim (Option-cases (varchar 50 name)) [
  | inl e ↦ rw e v
  | inr (stored, e) ↦ rw e (elim (Bool-cases (has_group gid db.groups)) [
    | inl k ↦ rw k v
    | inr k ↦ rw k (elim (Bool-cases (any (owns_name owner stored) db.groups)) [
      | inl n ↦ rw n v
      | inr n ↦ rw n (elim (Bool-cases (has_user owner db.users)) [
        | inl u ↦ rw u (add_group _ db k n u v)
        | inr u ↦ rw u v
      ])
    ])
  ])
]

skip_group_id :
    (db : Db) → IsIntact db → IsIntact (record db { next_group_msg_id = suc db.next_group_msg_id })
skip_group_id db v = with_messages db v (suc db.next_group_msg_id) db.group_messages (
  All-map _ _ db.group_messages (λ m p. omega arith) v.message_rows.0,
  v.message_rows.1,
  v.message_rows.2,
  v.message_rows.3,
)

add_message :
    (m : GroupMessage) (db : Db)
    → m.id ≡ db.next_group_msg_id
    → any (λ n. same_text n.client_msg_id m.client_msg_id) db.group_messages ≡ false
    → can_belong m.group_id m.from_uid db ≡ true
    → IsIntact db
    → IsIntact (record db {
      group_messages = m ∷ db.group_messages;
      next_group_msg_id = suc db.next_group_msg_id;
    })
add_message m db e new b v = with_messages db v (suc db.next_group_msg_id) (m ∷ db.group_messages) (
  (omega arith, All-map _ _ db.group_messages (λ n p. omega arith) v.message_rows.0),
  (any_of_All _ db.group_messages (λ n p. ground arith) v.message_rows.0, v.message_rows.1),
  (new, v.message_rows.2),
  ((ground arith, ground arith), v.message_rows.3),
)

pub insert_group_message-IsIntact :
    (now gid from_uid : ℕ) (content : String) (msg_type : ℕ)
    → KeepsRows IsIntact (insert_group_message now gid from_uid content msg_type none)
insert_group_message-IsIntact now gid from_uid content msg_type db v =
    elim (Bool-cases (can_belong gid from_uid db)) [
      | inl b ↦ rw b (add_message _ db refl (no_group_text db.group_messages) b v)
      | inr b ↦ rw b (skip_group_id db v)
    ]

pub insert_group_unless_sent-IsIntact :
    (now gid from_uid : ℕ) (content : String) (msg_type : ℕ) (cid : String)
    → KeepsRows IsIntact (insert_group_unless_sent now gid from_uid content msg_type cid)
insert_group_unless_sent-IsIntact now gid from_uid content msg_type cid db v =
    elim (Bool-cases (any (was_sent cid) db.group_messages)) [
      | inl e ↦ rw e (skip_group_id db v)
      | inr e ↦ elim (Bool-cases (can_belong gid from_uid db)) [
        | inl b ↦ rw (e, b) (add_message _ db refl e b v)
        | inr b ↦ rw (e, b) (skip_group_id db v)
      ]
    ]
