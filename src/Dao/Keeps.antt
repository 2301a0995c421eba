-- ===== src/Dao/Keeps.antt =====
-- What every operation of src/dao.rs keeps: a property of the database that each operation that
-- writes keeps is kept by them all.
pub mod Rows
pub mod Chats
pub mod Groups
use myx_im.Base.{ℕ, ◌≡◌, refl, Bool, true, Option, List, String, find?}
use myx_im.Base.Int.{ℤ, pos, negsuc}
use myx_im.Base.Outcome.{ok}
use myx_im.Db.{Db}
use myx_im.Db.Statement.{Pool, statement}
use myx_im.Db.Keeps.{Keeps, >>=-Keeps}
use myx_im.Db.Keeps
use myx_im.Dao.Select.{limited}
use myx_im.Dao.Users.{save_user, find_user_by_username, search_users}
use myx_im.Dao.Chat.{
  persist_chat_message, mark_seen_from_peer, get_chat_history, get_unseen_messages,
  get_conversations,
}
use myx_im.Dao.Friends.{add_friend, list_friends}
use myx_im.Dao.Groups.{
  create_group, join_group, leave_group, is_group_member, get_group_member_uids, list_my_groups,
  search_groups, list_group_members, is_membership,
}
use myx_im.Dao.GroupMessages.{
  persist_group_message, get_group_history, get_unseen_group_messages, get_unseen_group_counts,
}
use myx_im.Dao.GroupRead.{mark_group_read_and_get_delta}
use myx_im.Dao.Delete.{delete_user}

module _ (P : Db → Type 0) where
  pub limited-Keeps :
      {A : Type 0} (limit : ℤ) (rows : Db → List A)
      → Keeps P (statement (λ db. limited limit (rows db) db))
  limited-Keeps (pos n) rows = Keeps.read-Keeps P (λ db. limited (pos n) (rows db) db) (λ db. refl)
  limited-Keeps (negsuc n) rows =
      Keeps.read-Keeps P (λ db. limited (negsuc n) (rows db) db) (λ db. refl)

  pub ok-Keeps : {A : Type 0} (f : Db → A) → Keeps P (statement (λ db. ok (f db) db))
  ok-Keeps f = Keeps.read-Keeps P (λ db. ok (f db) db) (λ db. refl)

-- The operations that read keep every property of the database.
module _ (P : Db → Type 0) where
  pub find_user_by_username-Keeps : (name : String) → Keeps P (find_user_by_username name)
  unfolding find_user_by_username
  find_user_by_username-Keeps name = ok-Keeps P _

  pub search_users-Keeps :
      (ilike : String → String → Bool) (q : String) (uid : ℕ) (limit : ℤ)
      → Keeps P (search_users ilike q uid limit)
  unfolding search_users
  search_users-Keeps ilike q uid limit = limited-Keeps P limit _

  pub get_unseen_messages-Keeps : (uid : ℕ) (limit : ℤ) → Keeps P (get_unseen_messages uid limit)
  unfolding get_unseen_messages
  get_unseen_messages-Keeps uid limit = limited-Keeps P limit _

  pub get_conversations-Keeps : (uid : ℕ) → Keeps P (get_conversations uid)
  unfolding get_conversations
  get_conversations-Keeps uid = ok-Keeps P _

  pub list_friends-Keeps :
      (collates : String → String → Bool) (uid : ℕ) → Keeps P (list_friends collates uid)
  unfolding list_friends
  list_friends-Keeps collates uid = ok-Keeps P _

  pub is_group_member-Keeps : (gid uid : ℕ) → Keeps P (is_group_member gid uid)
  unfolding is_group_member
  is_group_member-Keeps gid uid =
      >>=-Keeps P (statement (λ db. ok (find? (is_membership gid uid) db.members) db)) _
        (ok-Keeps P _) (λ _ q v. v)

  pub get_group_member_uids-Keeps : (gid : ℕ) → Keeps P (get_group_member_uids gid)
  unfolding get_group_member_uids
  get_group_member_uids-Keeps gid = ok-Keeps P _

  pub list_my_groups-Keeps : (uid : ℕ) → Keeps P (list_my_groups uid)
  unfolding list_my_groups
  list_my_groups-Keeps uid = ok-Keeps P _

  pub search_groups-Keeps :
      (ilike : String → String → Bool) (q : String) (limit : ℤ)
      → Keeps P (search_groups ilike q limit)
  unfolding search_groups
  search_groups-Keeps ilike q limit = limited-Keeps P limit _

  pub list_group_members-Keeps : (gid : ℕ) → Keeps P (list_group_members gid)
  unfolding list_group_members
  list_group_members-Keeps gid = ok-Keeps P _

  pub get_group_history-Keeps :
      (gid : ℕ) (before : Option ℤ) (limit : ℤ) → Keeps P (get_group_history gid before limit)
  unfolding get_group_history
  get_group_history-Keeps gid before limit = limited-Keeps P limit _

  pub get_unseen_group_messages-Keeps :
      (uid : ℕ) (limit : ℤ) → Keeps P (get_unseen_group_messages uid limit)
  unfolding get_unseen_group_messages
  get_unseen_group_messages-Keeps uid limit = limited-Keeps P limit _

  pub get_unseen_group_counts-Keeps : (uid : ℕ) → Keeps P (get_unseen_group_counts uid)
  unfolding get_unseen_group_counts
  get_unseen_group_counts-Keeps uid = ok-Keeps P _

-- A property that every operation that writes keeps, whichever of its statements fail.
pub record DaoKeeps (P : Db → Type 0) : Type 0 where
  pub save_user-Keeps : (now uid : ℕ) (name hash : String) → Keeps P (save_user now uid name hash)
  pub persist_chat_message-Keeps :
      (now from_uid to_uid : ℕ) (content : String) (msg_type : ℕ) (cid : Option String)
      → Keeps P (persist_chat_message now from_uid to_uid content msg_type cid)
  pub mark_seen_from_peer-Keeps : (a b : ℕ) → Keeps P (mark_seen_from_peer a b)
  pub get_chat_history-Keeps :
      (a b : ℕ) (before : Option ℤ) (limit : ℤ) → Keeps P (get_chat_history a b before limit)
  pub add_friend-Keeps : (now a b : ℕ) → Keeps P (add_friend now a b)
  pub create_group-Keeps :
      (now gid : ℕ) (name : String) (owner : ℕ) → Keeps P (create_group now gid name owner)
  pub join_group-Keeps : (now gid uid : ℕ) → Keeps P (join_group now gid uid)
  pub leave_group-Keeps : (gid uid : ℕ) → Keeps P (leave_group gid uid)
  pub persist_group_message-Keeps :
      (now gid from_uid : ℕ) (content : String) (msg_type : ℕ) (cid : Option String)
      → Keeps P (persist_group_message now gid from_uid content msg_type cid)
  pub mark_group_read-Keeps : (gid uid : ℕ) → Keeps P (mark_group_read_and_get_delta gid uid)
  pub delete_user-Keeps : (uid : ℕ) → Keeps P (delete_user uid)

-- A property that each operation that a command of the user `uid` calls keeps; a group message is only
-- stored where the user has been found to be a member.
pub record CommandKeeps (P : Db → Type 0) (uid : ℕ) (Member : ℕ → Type 0) : Type 0 where
  pub private-Keeps :
      (now to_uid : ℕ) (content : String) (msg_type : ℕ) (cid : Option String)
      → Keeps P (persist_chat_message now uid to_uid content msg_type cid)
  pub seen-Keeps : (peer : ℕ) → Keeps P (mark_seen_from_peer peer uid)
  pub read-Keeps : (gid : ℕ) → Keeps P (mark_group_read_and_get_delta gid uid)
  pub found : (gid : ℕ) (p q : Pool) → P p.db → is_group_member gid uid p ≡ ok true q → Member gid
  pub group-Keeps :
      (now gid : ℕ) (content : String) (msg_type : ℕ) (cid : Option String)
      → Member gid
      → Keeps P (persist_group_message now gid uid content msg_type cid)

pub DaoKeeps-CommandKeeps :
    (P : Db → Type 0) (uid : ℕ) → DaoKeeps P → CommandKeeps P uid (λ gid. Unit {0})
DaoKeeps-CommandKeeps P uid k = record {
  private-Keeps = λ now. k.persist_chat_message-Keeps now uid;
  seen-Keeps = λ peer. k.mark_seen_from_peer-Keeps peer uid;
  read-Keeps = λ gid. k.mark_group_read-Keeps gid uid;
  found = λ gid p q h e. tt;
  group-Keeps = λ now gid content msg_type cid h.
      k.persist_group_message-Keeps now gid uid content msg_type cid;
}
