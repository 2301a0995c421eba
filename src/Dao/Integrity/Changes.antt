-- ===== src/Dao/Integrity/Changes.antt =====
-- The statements of src/dao.rs that change rows or delete them keep the keys and references of
-- init.sql.
use myx_im.Base.{
  ℕ, ◌≡◌, refl, true, false, not, ◌||◌, List, any, filter, arith, Bool-cases, inl, inr, ◌==◌,
}
use myx_im.Base.Rows.{All-update_where}
use myx_im.Base.Unique.{
  deletion_rules, Unique-update_where, All-filter_where, All-none, any-filter_kept,
}
use myx_im.Model.{User}
use myx_im.Db.{Db, Group}
use myx_im.Db.Keeps.{KeepsRows}
use myx_im.Dao.Users.{has_user}
use myx_im.Dao.Chat.{mark_seen, unseen_from, see}
use myx_im.Dao.Groups.{can_belong, delete_member}
use myx_im.Dao.GroupMessages.{cursor_of}
use myx_im.Dao.GroupRead.{advance, upsert_group_cursor, increment_reads, in_delta, count_read}
use myx_im.Dao.Delete.{
  delete_chats, delete_group, delete_sent, delete_cursors, is_referenced, delete_account,
}
use myx_im.Dao.Integrity.{
  IsIntact, Belongs, with_chats, with_cursors, with_members, with_messages, with_reads,
}

pub mark_seen-IsIntact : (a b : ℕ) → KeepsRows IsIntact (mark_seen a b)
mark_seen-IsIntact a b db v = with_chats db v db.next_chat_id _ (
  All-update_where _ _ (unseen_from a b) see db.chat_messages (λ m h. ground arith) v.chat_rows.0,
  Unique-update_where _ (unseen_from a b) see db.chat_messages (λ m n. refl) (λ m n. refl)
      v.chat_rows.1,
  Unique-update_where _ (unseen_from a b) see db.chat_messages (λ m n. refl) (λ m n. refl)
      v.chat_rows.2,
)

pub upsert_group_cursor-IsIntact :
    (uid gid last : ℕ) → KeepsRows IsIntact (upsert_group_cursor uid gid last)
upsert_group_cursor-IsIntact uid gid last db v =
    elim (Bool-cases (any (cursor_of uid gid) db.group_read_cursors)) [
      | inl e ↦ rw e (
          with_reads db v _ (
            Unique-update_where _ (cursor_of uid gid) (advance last) db.group_read_cursors
                (λ c d. refl) (λ c d. refl) v.read_rows.0,
            All-update_where _ _ (cursor_of uid gid) (advance last) db.group_read_cursors
                (λ c h. ground arith) v.read_rows.1,
          ))
      | inr e ↦ rw e (elim (Bool-cases (can_belong gid uid db)) [
        | inl b ↦
            rw b (
              with_reads db v _ ((e, v.read_rows.0), ((ground arith, ground arith), v.read_rows.1)))
        | inr b ↦ rw b v
      ])
    ]

pub increment_reads-IsIntact :
    (gid old last uid : ℕ) → KeepsRows IsIntact (increment_reads gid old last uid)
increment_reads-IsIntact gid old last uid db v = with_messages db v db.next_group_msg_id _ (
  All-update_where _ _ (in_delta gid old last uid) count_read db.group_messages
      (λ m h. ground arith) v.message_rows.0,
  Unique-update_where _ (in_delta gid old last uid) count_read db.group_messages (λ m n. refl)
      (λ m n. refl) v.message_rows.1,
  Unique-update_where _ (in_delta gid old last uid) count_read db.group_messages (λ m n. refl)
      (λ m n. refl) v.message_rows.2,
  All-update_where _ _ (in_delta gid old last uid) count_read db.group_messages
      (λ m h. ground arith) v.message_rows.3,
)

pub delete_member-IsIntact : (gid uid : ℕ) → KeepsRows IsIntact (delete_member gid uid)
delete_member-IsIntact gid uid db v = with_members db v _ (search deletion_rules)

pub delete_chats-IsIntact : (uid : ℕ) → KeepsRows IsIntact (delete_chats uid)
delete_chats-IsIntact uid db v = with_chats db v db.next_chat_id _ (search deletion_rules)

pub delete_cursors-IsIntact : (uid : ℕ) → KeepsRows IsIntact (delete_cursors uid)
delete_cursors-IsIntact uid db v = with_cursors db v _ (search deletion_rules)

pub delete_sent-IsIntact : (uid : ℕ) → KeepsRows IsIntact (delete_sent uid)
delete_sent-IsIntact uid db v = with_messages db v db.next_group_msg_id _ (search deletion_rules)

-- A group that is not the deleted one is there still.
other_group :
    (gid g uid : ℕ) (gs : List Group) (us : List User)
    → not (g == gid) ≡ true
    → Belongs gs us g uid
    → Belongs (filter (λ h. not (h.id == gid)) gs) us g uid
other_group gid g uid gs us ne (h, u) =
    (rw (any-filter_kept (λ h. not (h.id == gid)) (λ h. h.id == g) gs (λ a e. ground arith)) h, u)

pub delete_group-IsIntact : (gid : ℕ) → KeepsRows IsIntact (delete_group gid)
delete_group-IsIntact gid db v = record {
  user_rows = v.user_rows;
  chat_rows = v.chat_rows;
  cursor_rows = v.cursor_rows;
  group_rows = search deletion_rules;
  member_rows = (
    search deletion_rules,
    All-filter_where _ _ _ db.members (λ m. other_group gid m.group_id m.user_id db.groups db.users)
        v.member_rows.1,
  );
  message_rows = (
    search deletion_rules,
    search deletion_rules,
    search deletion_rules,
    All-filter_where _ _ _ db.group_messages
        (λ m. other_group gid m.group_id m.from_uid db.groups db.users) v.message_rows.3,
  );
  read_rows = (
    search deletion_rules,
    All-filter_where _ _ _ db.group_read_cursors
        (λ c. other_group gid c.group_id c.user_id db.groups db.users) v.read_rows.1,
  );
  friend_rows = v.friend_rows;
}

-- A user who is not the deleted one is there still.
other_user :
    (uid u : ℕ) (us : List User)
    → (u == uid) ≡ false
    → has_user u us ≡ true
    → has_user u (filter (λ a. not (a.id == uid)) us) ≡ true
other_user uid u us ne h =
    rw (any-filter_kept (λ a. not (a.id == uid)) (λ a. a.id == u) us (λ a e. ground arith)) h

remove_account :
    (uid : ℕ) (db : Db)
    → any (λ g. g.owner_uid == uid) db.groups ≡ false
    → any (λ m. m.from_uid == uid) db.group_messages ≡ false
    → IsIntact db
    → IsIntact (record db {
      users = filter (λ u. not (u.id == uid)) db.users;
      members = filter (λ m. not (m.user_id == uid)) db.members;
      group_read_cursors = filter (λ c. not (c.user_id == uid)) db.group_read_cursors;
      friends = filter (λ f. not (f.user_id == uid || f.friend_id == uid)) db.friends;
    })
remove_account uid db owns sent v = record {
  user_rows = (search deletion_rules, search deletion_rules);
  chat_rows = v.chat_rows;
  cursor_rows = v.cursor_rows;
  group_rows = (
    v.group_rows.0,
    v.group_rows.1,
    All-none _ _ (λ g. g.owner_uid == uid) db.groups (λ g. other_user uid g.owner_uid db.users) owns
        v.group_rows.2,
  );
  member_rows = (
    search deletion_rules,
    All-filter_where _ _ _ db.members
        (λ m e h. (h.0, other_user uid m.user_id db.users (ground arith) h.1)) v.member_rows.1,
  );
  message_rows = (
    v.message_rows.0,
    v.message_rows.1,
    v.message_rows.2,
    All-none _ _ (λ m. m.from_uid == uid) db.group_messages
        (λ m e h. (h.0, other_user uid m.from_uid db.users e h.1)) sent v.message_rows.3,
  );
  read_rows = (
    search deletion_rules,
    All-filter_where _ _ _ db.group_read_cursors
        (λ c e h. (h.0, other_user uid c.user_id db.users (ground arith) h.1)) v.read_rows.1,
  );
  friend_rows = (
    search deletion_rules,
    All-filter_where _ _ _ db.friends
        (λ f e h. (
          other_user uid f.user_id db.users (ground arith) h.0,
          other_user uid f.friend_id db.users (ground arith) h.1,
        ))
        v.friend_rows.1,
  );
}

pub delete_account-IsIntact : (uid : ℕ) → KeepsRows IsIntact (delete_account uid)
delete_account-IsIntact uid db v = elim (Bool-cases (is_referenced uid db)) [
  | inl e ↦ rw e v
  | inr e ↦ rw e (remove_account uid db (ground arith) (ground arith) v)
]
