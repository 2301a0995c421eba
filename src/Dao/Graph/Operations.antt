-- ===== src/Dao/Graph/Operations.antt =====
-- Every operation of src/dao.rs is a course of changes of the graph, whichever statements fail.
use myx_im.Base.{ℕ, refl, String, Option, none, arith}
use myx_im.Db.Keeps.{KeepsRows}
use myx_im.Dao.Chat.{insert_unless_sent}
use myx_im.Dao.GroupMessages.{insert_group_message, insert_group_unless_sent}
use myx_im.Dao.GroupRead.{upsert_group_cursor}
use myx_im.Dao.Keeps.{DaoKeeps}
use myx_im.Dao.Keeps.Rows.{RowsKeep}
use myx_im.Dao.Keeps.Groups.{RowsKeep-DaoKeeps}
use myx_im.Dao.Graph.{IsGraph}
use myx_im.Dao.Graph.Rows.{
  unchanged, delete_member-IsGraph, delete_group-IsGraph, delete_account-IsGraph,
}
use myx_im.Dao.Graph.Inserts.{
  insert_user-IsGraph, insert_group-IsGraph, insert_owner-IsGraph, insert_member-IsGraph,
}
use myx_im.Dao.Graph.Befriend.{add_friend-IsGraph}

-- Messages and cursors are not part of the graph.
insert_unless_sent-IsGraph :
    (now from_uid to_uid : ℕ) (content : String) (msg_type : ℕ) (cid : String)
    → KeepsRows IsGraph (insert_unless_sent now from_uid to_uid content msg_type cid)
insert_unless_sent-IsGraph now from_uid to_uid content msg_type cid db =
    unchanged db _ (ground arith)

insert_group_message-IsGraph :
    (now gid from_uid : ℕ) (content : String) (msg_type : ℕ) (cid : Option String)
    → KeepsRows IsGraph (insert_group_message now gid from_uid content msg_type cid)
insert_group_message-IsGraph now gid from_uid content msg_type cid db =
    unchanged db _ (ground arith)

insert_group_unless_sent-IsGraph :
    (now gid from_uid : ℕ) (content : String) (msg_type : ℕ) (cid : String)
    → KeepsRows IsGraph (insert_group_unless_sent now gid from_uid content msg_type cid)
insert_group_unless_sent-IsGraph now gid from_uid content msg_type cid db =
    unchanged db _ (ground arith)

upsert_group_cursor-IsGraph :
    (uid gid last : ℕ) → KeepsRows IsGraph (upsert_group_cursor uid gid last)
upsert_group_cursor-IsGraph uid gid last db = unchanged db _ (ground arith)

pub IsGraph-RowsKeep : RowsKeep IsGraph
IsGraph-RowsKeep = record {
  insert_user-Keeps = insert_user-IsGraph;
  insert_chat_message-Keeps =
      λ now a b content msg_type db. unchanged db _ (refl, refl, refl, refl);
  insert_unless_sent-Keeps = insert_unless_sent-IsGraph;
  mark_seen-Keeps = λ a b db. unchanged db _ (refl, refl, refl, refl);
  add_friend-Keeps = add_friend-IsGraph;
  insert_group-Keeps = insert_group-IsGraph;
  insert_owner-Keeps = insert_owner-IsGraph;
  insert_member-Keeps = insert_member-IsGraph;
  delete_member-Keeps = delete_member-IsGraph;
  insert_group_message-Keeps = λ now gid uid content msg_type.
      insert_group_message-IsGraph now gid uid content msg_type none;
  insert_group_unless_sent-Keeps = insert_group_unless_sent-IsGraph;
  upsert_group_cursor-Keeps = upsert_group_cursor-IsGraph;
  increment_reads-Keeps = λ gid old last uid db. unchanged db _ (refl, refl, refl, refl);
  delete_chats-Keeps = λ uid db. unchanged db _ (refl, refl, refl, refl);
  delete_group-Keeps = delete_group-IsGraph;
  delete_sent-Keeps = λ uid db. unchanged db _ (refl, refl, refl, refl);
  delete_cursors-Keeps = λ uid db. unchanged db _ (refl, refl, refl, refl);
  delete_account-Keeps = delete_account-IsGraph;
}

pub IsGraph-DaoKeeps : DaoKeeps IsGraph
IsGraph-DaoKeeps = RowsKeep-DaoKeeps IsGraph IsGraph-RowsKeep
