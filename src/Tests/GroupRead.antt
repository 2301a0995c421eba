-- ===== src/Tests/GroupRead.antt =====
-- The read counts at work.
use myx_im.Base.{
  ℕ, find?, count_if, ◌&&◌, ◌≡◌, refl, true, false, List, ◌==◌, [], ◌∷◌, any, map, arith,
}
use myx_im.Base.Outcome.{ok, err, state_of}
use myx_im.Base.Int.{pos}
use myx_im.Base.Unique.{Unique}
use myx_im.Model.{GroupHistoryItem}
use myx_im.Db.Statement.{healthy, anyhow}
use myx_im.Dao.Groups.{create_group, has_group, is_member}
use myx_im.Dao.Groups.Orphan.{fails_at_owner, create_group_orphan}
use myx_im.Dao.GroupMessages.{get_unseen_group_messages, get_unseen_group_counts}
use myx_im.Dao.GroupMessages.Outsiders.{get_unseen_group_messages-outsider}
use myx_im.Dao.GroupRead.{mark_group_read_and_get_delta}
use myx_im.Dao.GroupRead.Counts.{CountsReads, mark_group_read-CountsReads}
use myx_im.Dao.GroupMessages.Unseen.{
  counts_for, entry, is_unseen, same_group, get_unseen_group_counts_lem,
}
use myx_im.Dao.GroupRead.Again.{mark_group_read_twice}
use myx_im.Dao.GroupRead.Outsiders.{CountsMembers, outsider_counted}
use myx_im.Dao.GroupRead.CaughtUp.{mark_group_read-unseen}
use myx_im.Dao.GroupMessages.{get_unseen_group_counts, get_unseen_group_messages}
use myx_im.Dao.GroupMessages.Unseen.{counts_for}
use myx_im.Base.Rows.{All}
use myx_im.Base.Int.{pos}
use myx_im.Base.{find?, none, false, ℕ, List, ◌==◌}
use myx_im.Model.{GroupHistoryItem}
use myx_im.Dao.GroupRead.Lost.{fails_at_increment, mark_group_read_lost}
use myx_im.Tests.{db}

pub db-CountsReads : CountsReads db
db-CountsReads = record {
  counted = ((refl, omega arith, omega arith), ((refl, omega arith, omega arith), tt));
  behind = (omega arith, tt);
  distinct = (refl, tt);
  started = omega arith;
}

-- Bob reads the group: the message of Alice has two readers, his own is not counted.
bob_reads :
    map
      (λ m. m.read_count)
      (state_of (mark_group_read_and_get_delta 10 2 (healthy db))).db.group_messages
    ≡ 0 ∷ 2 ∷ []
unfolding mark_group_read_and_get_delta
bob_reads = refl

mark_group_read-CountsReads_example :
    CountsReads (state_of (mark_group_read_and_get_delta 10 2 (healthy db))).db
mark_group_read-CountsReads_example = mark_group_read-CountsReads 10 2 db db-CountsReads

mark_group_read_twice_example :
    mark_group_read_and_get_delta 10 2
      (healthy (state_of (mark_group_read_and_get_delta 10 2 (healthy db))).db)
    ≡ ok [] (healthy (state_of (mark_group_read_and_get_delta 10 2 (healthy db))).db)
mark_group_read_twice_example = mark_group_read_twice 10 2 db (refl, tt) refl

mark_group_read-unseen_example :
    let after = (state_of (mark_group_read_and_get_delta 10 2 (healthy db))).db in
    ((counts : List (ℕ × ℕ)) × (get_unseen_group_counts 2 (healthy after)
        ≡ ok counts (healthy after))
      × (find? (counts_for 10) counts ≡ none))
    × ((items : List GroupHistoryItem) × (get_unseen_group_messages 2 (pos 200) (healthy after)
          ≡ ok items (healthy after))
        × All (λ i. (i.group_id == 10) ≡ false) items)
mark_group_read-unseen_example = mark_group_read-unseen 10 2 200 db refl

-- Dave is no member of the group.
outsider_counted_example :
    ¬ CountsMembers (state_of (mark_group_read_and_get_delta 10 4 (healthy db))).db
outsider_counted_example = outsider_counted 10 4 2 db (refl, (refl, tt)) refl refl refl refl

mark_group_read_lost_example :
    let after = (state_of (mark_group_read_and_get_delta 10 2 (fails_at_increment "down" db))).db in
    (¬ CountsReads after)
    × (mark_group_read_and_get_delta 10 2 (healthy after) ≡ ok [] (healthy after))
mark_group_read_lost_example = mark_group_read_lost 10 2 2 "down" db db-CountsReads refl refl refl

create_group_orphan_example :
    let after = (state_of (create_group 0 11 "club" 2 (fails_at_owner "down" db))).db in
    (has_group 11 after.groups ≡ true)
    × (is_member 11 2 after ≡ false)
    × (create_group 1 12 "club" 2 (healthy after)
        ≡ err (anyhow "group name already exists for this owner") (healthy after))
create_group_orphan_example =
    create_group_orphan 0 11 2 1 12 "club" "down" db refl refl refl refl refl

-- Dave is sent the messages of a group that he is no member of.
get_unseen_group_messages-outsider_example :
    (items : List GroupHistoryItem) × (get_unseen_group_messages 4 (pos 200) (healthy db)
      ≡ ok items (healthy db))
    × (any (λ i. i.group_id == 10) items ≡ true)
get_unseen_group_messages-outsider_example =
    get_unseen_group_messages-outsider 4 10 200 db refl refl (omega arith)

get_unseen_group_counts_lem_example :
    (counts : List (ℕ × ℕ)) × (get_unseen_group_counts 3 (healthy db) ≡ ok counts (healthy db))
    × ((gid : ℕ)
        → find? (counts_for gid) counts
          ≡ entry gid (count_if (λ m. m.group_id == gid && is_unseen 3 db m) db.group_messages))
    × Unique same_group counts
get_unseen_group_counts_lem_example = get_unseen_group_counts_lem 3 db

-- Carol has read the first message of the group, and not the second.
carols_counts : get_unseen_group_counts 3 (healthy db) ≡ ok ((10, 1) ∷ []) (healthy db)
unfolding get_unseen_group_counts
carols_counts = refl
