-- ===== src/Dao/Keeps/Groups.antt =====
-- The operations of src/dao.rs on groups and the deletion of an account keep what their statements
-- keep.
use myx_im.Base.{ℕ, Option, none, some, List, [], ◌∷◌, String, arith, Bool-cases, inl, inr, ◌==◌}
use myx_im.Base.Outcome.{ok}
use myx_im.Db.{Db, Group}
use myx_im.Db.Statement.{statement, or_default}
use myx_im.Db.Keeps.{Keeps, KeepsRows, statement-Keeps, >>=-Keeps, or_default-Keeps, read-Keeps}
use myx_im.Dao.Groups.{
  create_group, join_group, leave_group, insert_group, insert_owner, insert_member, select_username,
  create_if_free, select_owned_name,
}
use myx_im.Dao.GroupMessages.{
  read_up_to, persist_group_message, get_group_history, get_unseen_group_messages,
  get_unseen_group_counts, insert_group_message, insert_group_unless_sent, sent_group_message_id,
}
use myx_im.Dao.GroupMessages
use myx_im.Dao.GroupRead.{
  upsert_group_cursor, mark_group_read_and_get_delta, upsert_group_read_cursor, increment_reads,
  mark_up_to, delta_rows, max_id,
}
use myx_im.Dao.Delete.{
  delete_user, delete_groups, delete_group, delete_chats, delete_sent, delete_cursors, owned_groups,
}
use myx_im.Dao.Keeps.{ok-Keeps, DaoKeeps}
use myx_im.Dao.Keeps.Chats.{
  save_user-Keeps, persist_chat_message-Keeps, mark_seen_from_peer-Keeps, get_chat_history-Keeps,
}
use myx_im.Dao.Keeps.Rows.{RowsKeep}

-- The cursor and the counts of readers keep what their statements keep.
module _ (P : Db → Type 0)
    (ku : (uid gid last : ℕ) → KeepsRows P (upsert_group_cursor uid gid last))
    (ki : (gid old last uid : ℕ) → KeepsRows P (increment_reads gid old last uid)) where
  upsert_group_read_cursor-Keeps :
      (uid gid last : ℕ) → Keeps P (upsert_group_read_cursor uid gid last)
  unfolding upsert_group_read_cursor
  upsert_group_read_cursor-Keeps uid gid last = statement-Keeps P _ (ku uid gid last)

  delta_rows-Keeps :
      (gid old last uid affected : ℕ) → Keeps P (delta_rows gid old last uid affected)
  delta_rows-Keeps gid old last uid affected p v = elim (Bool-cases (affected == 0)) [
    | inl e ↦ rw e v
    | inr e ↦ rw e (ok-Keeps P _ p v)
  ]

  mark_up_to-Keeps : (gid uid : ℕ) (latest : Option ℕ) → Keeps P (mark_up_to gid uid latest)
  mark_up_to-Keeps gid uid none p v = v
  mark_up_to-Keeps gid uid (some latest) p v =
      >>=-Keeps P (statement (λ db. ok (read_up_to uid gid db.group_read_cursors) db)) _
        (ok-Keeps P _)
        (λ old.
          >>=-Keeps P (upsert_group_read_cursor uid gid latest) _
            (upsert_group_read_cursor-Keeps uid gid latest)
            (λ _.
              >>=-Keeps P (statement (increment_reads gid old latest uid)) _
                (statement-Keeps P _ (ki gid old latest uid))
                (delta_rows-Keeps gid old latest uid)))
        p v

  pub mark_group_read-Keeps : (gid uid : ℕ) → Keeps P (mark_group_read_and_get_delta gid uid)
  unfolding mark_group_read_and_get_delta
  mark_group_read-Keeps gid uid =
      >>=-Keeps P (statement (λ db. ok (max_id gid db.group_messages) db)) _ (ok-Keeps P _)
        (mark_up_to-Keeps gid uid)

-- A message of a user in a group keeps what its two insertions keep.
module _ (P : Db → Type 0) (gid from_uid : ℕ)
    (kn : (now : ℕ) (content : String) (msg_type : ℕ)
      → KeepsRows P (insert_group_message now gid from_uid content msg_type none))
    (kc : (now : ℕ) (content : String) (msg_type : ℕ) (cid : String)
      → KeepsRows P (insert_group_unless_sent now gid from_uid content msg_type cid)) where
  reuse_group-Keeps :
      (cid : String) (inserted : Option ℕ) → Keeps P (GroupMessages.reuse_sent cid inserted)
  reuse_group-Keeps cid (some id) q v = v
  reuse_group-Keeps cid none q v = read-Keeps P (sent_group_message_id cid) (λ db. ground arith) q v

  pub persist_group_message-Keeps :
      (now : ℕ) (content : String) (msg_type : ℕ) (cid : Option String)
      → Keeps P (persist_group_message now gid from_uid content msg_type cid)
  unfolding persist_group_message
  persist_group_message-Keeps now content msg_type (some cid) p =
      >>=-Keeps P (statement (insert_group_unless_sent now gid from_uid content msg_type cid))
        (GroupMessages.reuse_sent cid) (statement-Keeps P _ (kc now content msg_type cid))
        (reuse_group-Keeps cid) p
  persist_group_message-Keeps now content msg_type none p =
      statement-Keeps P _ (kn now content msg_type) p

module _ (P : Db → Type 0) (k : RowsKeep P) where
  select_username-Keeps : (uid : ℕ) → Keeps P (statement (select_username uid))
  select_username-Keeps uid = read-Keeps P (select_username uid) (λ db. ground arith)

  create_if_free-Keeps :
      (now gid : ℕ) (name : String) (owner : ℕ) (existing : Option Group)
      → Keeps P (create_if_free now gid name owner existing)
  create_if_free-Keeps now gid name owner (some g) p v = v
  create_if_free-Keeps now gid name owner none p v =
      >>=-Keeps P (statement (insert_group now gid name owner)) _
        (statement-Keeps P _ (k.insert_group-Keeps now gid name owner))
        (λ _.
          >>=-Keeps P (statement (insert_owner now gid owner)) _
            (statement-Keeps P _ (k.insert_owner-Keeps now gid owner))
            (λ _.
              >>=-Keeps P (or_default "" (statement (select_username owner))) _
                (or_default-Keeps {A = String} P "" (statement (select_username owner))
                  (select_username-Keeps owner))
                (λ _ q w. w)))
        p v

  pub create_group-Keeps :
      (now gid : ℕ) (name : String) (owner : ℕ) → Keeps P (create_group now gid name owner)
  unfolding create_group
  create_group-Keeps now gid name owner =
      >>=-Keeps P (statement (select_owned_name owner name)) _ (ok-Keeps P _)
        (create_if_free-Keeps now gid name owner)

  pub join_group-Keeps : (now gid uid : ℕ) → Keeps P (join_group now gid uid)
  unfolding join_group
  join_group-Keeps now gid uid =
      >>=-Keeps P (statement (insert_member now gid uid)) _
        (statement-Keeps P _ (k.insert_member-Keeps now gid uid)) (λ _ q v. v)

  pub leave_group-Keeps : (gid uid : ℕ) → Keeps P (leave_group gid uid)
  unfolding leave_group
  leave_group-Keeps gid uid = statement-Keeps P _ (k.delete_member-Keeps gid uid)

  delete_groups-Keeps : (gids : List ℕ) → Keeps P (delete_groups gids)
  unfolding delete_groups
  delete_groups-Keeps [] p v = v
  delete_groups-Keeps (gid ∷ gids) p v =
      >>=-Keeps P (statement (delete_group gid)) _ (statement-Keeps P _ (k.delete_group-Keeps gid))
        (λ _. delete_groups-Keeps gids) p v

  pub delete_user-Keeps : (uid : ℕ) → Keeps P (delete_user uid)
  unfolding delete_user
  delete_user-Keeps uid =
      >>=-Keeps P (statement (delete_chats uid)) _ (statement-Keeps P _ (k.delete_chats-Keeps uid))
        λ _. >>=-Keeps P (statement (λ db. ok (owned_groups uid db) db)) _ (ok-Keeps P _) λ gids.
          >>=-Keeps P (delete_groups gids) _ (delete_groups-Keeps gids) λ _.
            >>=-Keeps P (statement (delete_sent uid)) _
              (statement-Keeps P _ (k.delete_sent-Keeps uid))
              λ _.
                >>=-Keeps P (statement (delete_cursors uid)) _
                  (statement-Keeps P _ (k.delete_cursors-Keeps uid))
                  λ _. statement-Keeps P _ (k.delete_account-Keeps uid)

  -- What the statements keep every operation keeps.
  pub RowsKeep-DaoKeeps : DaoKeeps P
  RowsKeep-DaoKeeps = record {
    save_user-Keeps = save_user-Keeps P k;
    persist_chat_message-Keeps = λ now from_uid.
        persist_chat_message-Keeps P from_uid (λ now'. k.insert_chat_message-Keeps now' from_uid)
          (λ now'. k.insert_unless_sent-Keeps now' from_uid) now;
    mark_seen_from_peer-Keeps = mark_seen_from_peer-Keeps P k;
    get_chat_history-Keeps = get_chat_history-Keeps P k;
    add_friend-Keeps = k.add_friend-Keeps;
    create_group-Keeps = create_group-Keeps;
    join_group-Keeps = join_group-Keeps;
    leave_group-Keeps = leave_group-Keeps;
    persist_group_message-Keeps = λ now gid from_uid.
        persist_group_message-Keeps P gid from_uid
          (λ now'. k.insert_group_message-Keeps now' gid from_uid)
          (λ now'. k.insert_group_unless_sent-Keeps now' gid from_uid) now;
    mark_group_read-Keeps =
        mark_group_read-Keeps P k.upsert_group_cursor-Keeps k.increment_reads-Keeps;
    delete_user-Keeps = delete_user-Keeps;
  }
