-- ===== src/Dao/Integrity/Operations.antt =====
-- Every operation of src/dao.rs keeps the keys and references of init.sql.
use myx_im.Dao.Keeps.{DaoKeeps}
use myx_im.Dao.Keeps.Rows.{RowsKeep, both_rows-Keeps}
use myx_im.Dao.Keeps.Groups.{RowsKeep-DaoKeeps}
use myx_im.Dao.Integrity.{IsIntact}
use myx_im.Dao.Integrity.Inserts.{
  insert_user-IsIntact, insert_chat_message-IsIntact, insert_unless_sent-IsIntact,
  insert_friend-IsIntact,
}
use myx_im.Dao.Integrity.GroupInserts.{
  insert_owner-IsIntact, insert_member-IsIntact, insert_group-IsIntact,
  insert_group_message-IsIntact, insert_group_unless_sent-IsIntact,
}
use myx_im.Dao.Integrity.Changes.{
  mark_seen-IsIntact, upsert_group_cursor-IsIntact, increment_reads-IsIntact,
  delete_member-IsIntact, delete_chats-IsIntact, delete_cursors-IsIntact, delete_sent-IsIntact,
  delete_group-IsIntact, delete_account-IsIntact,
}

pub IsIntact-RowsKeep : RowsKeep IsIntact
IsIntact-RowsKeep = record {
  insert_user-Keeps = insert_user-IsIntact;
  insert_chat_message-Keeps = insert_chat_message-IsIntact;
  insert_unless_sent-Keeps = insert_unless_sent-IsIntact;
  mark_seen-Keeps = mark_seen-IsIntact;
  add_friend-Keeps = both_rows-Keeps IsIntact insert_friend-IsIntact;
  insert_group-Keeps = insert_group-IsIntact;
  insert_owner-Keeps = insert_owner-IsIntact;
  insert_member-Keeps = insert_member-IsIntact;
  delete_member-Keeps = delete_member-IsIntact;
  insert_group_message-Keeps = insert_group_message-IsIntact;
  insert_group_unless_sent-Keeps = insert_group_unless_sent-IsIntact;
  upsert_group_cursor-Keeps = upsert_group_cursor-IsIntact;
  increment_reads-Keeps = increment_reads-IsIntact;
  delete_chats-Keeps = delete_chats-IsIntact;
  delete_group-Keeps = delete_group-IsIntact;
  delete_sent-Keeps = delete_sent-IsIntact;
  delete_cursors-Keeps = delete_cursors-IsIntact;
  delete_account-Keeps = delete_account-IsIntact;
}

IsIntact-DaoKeeps : DaoKeeps IsIntact
IsIntact-DaoKeeps = RowsKeep-DaoKeeps IsIntact IsIntact-RowsKeep
