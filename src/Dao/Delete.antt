-- ===== src/Dao/Delete.antt =====
-- src/dao.rs: the deletion of an account, with the cascades that init.sql declares.
pub mod NoTrace
use myx_im.Base.{Bool, ◌||◌, not, List, [], ◌∷◌, map, filter, any, ◌==◌, if◌then◌else◌}
use myx_im.Base.Outcome.{ok, err, ◌>>=◌, ◌>>◌}
use myx_im.Model.{Uuid}
use myx_im.Db.{Db, ChatMessage}
use myx_im.Db.Statement.{Sql, Dao, statement, foreign_key_violation}

abbrev pub is_party : Uuid → ChatMessage → Bool
is_party uid m = m.from_uid == uid || m.to_uid == uid

abbrev pub delete_chats : Uuid → Sql (Unit {0})
delete_chats uid db =
    ok tt (record db { chat_messages = filter (λ m. not (is_party uid m)) db.chat_messages })

abbrev pub owned_groups : Uuid → Db → List Uuid
owned_groups uid db = map (λ g. g.id) (filter (λ g. g.owner_uid == uid) db.groups)

-- `DELETE FROM im_groups WHERE id = $1`; members, messages and cursors of the group go with it.
abbrev pub delete_group : Uuid → Sql (Unit {0})
delete_group gid db = ok tt (record db {
  groups = filter (λ g. not (g.id == gid)) db.groups;
  members = filter (λ m. not (m.group_id == gid)) db.members;
  group_messages = filter (λ m. not (m.group_id == gid)) db.group_messages;
  group_read_cursors = filter (λ c. not (c.group_id == gid)) db.group_read_cursors;
})

unfoldable pub delete_groups : List Uuid → Dao (Unit {0})
delete_groups [] p = ok tt p
delete_groups (gid ∷ gids) p = (statement (delete_group gid) >>= λ _. delete_groups gids) p

abbrev pub delete_sent : Uuid → Sql (Unit {0})
delete_sent uid db =
    ok tt (record db { group_messages = filter (λ m. not (m.from_uid == uid)) db.group_messages })

abbrev pub delete_cursors : Uuid → Sql (Unit {0})
delete_cursors uid db = ok tt (record db {
  read_cursors = filter (λ c. not (c.user_id == uid || c.peer_uid == uid)) db.read_cursors;
})

-- The references to a user that do not cascade: the owner of a group, the sender of a message.
abbrev pub is_referenced : Uuid → Db → Bool
is_referenced uid db =
    any (λ g. g.owner_uid == uid) db.groups || any (λ m. m.from_uid == uid) db.group_messages

-- `DELETE FROM im_users WHERE id = $1`; memberships, group cursors and friendships go with the user.
abbrev pub delete_account : Uuid → Sql (Unit {0})
delete_account uid db =
    if is_referenced uid db
    then err (foreign_key_violation "im_users") db
    else ok tt (record db {
      users = filter (λ u. not (u.id == uid)) db.users;
      members = filter (λ m. not (m.user_id == uid)) db.members;
      group_read_cursors = filter (λ c. not (c.user_id == uid)) db.group_read_cursors;
      friends = filter (λ f. not (f.user_id == uid || f.friend_id == uid)) db.friends;
    })

unfoldable pub delete_user : Uuid → Dao (Unit {0})
delete_user uid = do
  statement (delete_chats uid)
  gids ← statement (λ db. ok (owned_groups uid db) db)
  delete_groups gids
  statement (delete_sent uid)
  statement (delete_cursors uid)
  statement (delete_account uid)
