-- ===== src/Dao/Friends/Mutual.antt =====
-- src/dao.rs: friendship goes both ways, whichever statements follow one another and whichever fail.
use myx_im.Base.{
  ℕ, none, ◌≡◌, refl, not, ◌&&◌, ◌||◌, List, [], ◌∷◌, any, filter, ◌==◌, arith, Bool-cases, inl,
  inr,
}
use myx_im.Base.Outcome.{Outcome, ok, err, state_of}
use myx_im.Db.{Db, Friend}
use myx_im.Db.Statement.{Pool, DbError, Sql}
use myx_im.Dao.Users.{insert_user}
use myx_im.Dao.Chat.{insert_unless_sent}
use myx_im.Dao.Groups.{insert_group, insert_owner, insert_member}
use myx_im.Dao.GroupMessages.{insert_group_message, insert_group_unless_sent}
use myx_im.Dao.GroupRead.{upsert_group_cursor}
use myx_im.Db.Keeps.{KeepsRows, untouched-Keeps}
use myx_im.Dao.Keeps.Rows.{RowsKeep}
use myx_im.Dao.Keeps.Groups.{RowsKeep-DaoKeeps}
use myx_im.Dao.Writes.{Writes, Writes_keep}
use myx_im.Dao.Friends.{are_friends, is_pair, add_friend}
use myx_im.Dao.Friends.Pairs.{add_friend_ok, add_friend_err}
use myx_im.Dao.Delete.{delete_user, delete_account, is_referenced}

abbrev pub IsMutual : Db → Type 0
IsMutual db = (x y : ℕ) → are_friends x y db ≡ are_friends y x db

added :
    (now a b : ℕ) (p : Pool) (r : Outcome Pool DbError (Unit {0}))
    → add_friend now a b p ≡ r
    → IsMutual p.db
    → IsMutual (state_of r).db
added now a b p (ok u q) e v x y =
    ground (arith, add_friend_ok now a b p q x y e, add_friend_ok now a b p q y x e, v x y)
added now a b p (err f q) e v x y = rw (add_friend_err now a b p q f e) (v x y)

-- If every friendship goes both ways then it does so after add_friend, whether this succeeds or not.
add_friend-IsMutual :
    (now a b : ℕ) (p : Pool) → IsMutual p.db → IsMutual (state_of (add_friend now a b p)).db
add_friend-IsMutual now a b p v = added now a b p (add_friend now a b p) refl v

left :
    (uid x y : ℕ) (fs : List Friend)
    → any (is_pair x y) (filter (λ f. not (f.user_id == uid || f.friend_id == uid)) fs)
      ≡ (not (x == uid) && not (y == uid) && any (is_pair x y) fs)
left uid x y [] = ground arith
left uid x y (f ∷ fs) = ground (arith, left uid x y fs)

delete_account-IsMutual : (uid : ℕ) → KeepsRows IsMutual (delete_account uid)
delete_account-IsMutual uid db v = elim (Bool-cases (is_referenced uid db)) [
  | inl e ↦ rw e v
  | inr e ↦ rw e (λ x y. ground (arith, left uid x y db.friends, left uid y x db.friends, v x y))
]

module _ {A : Type 0} where
  -- A statement that leaves the friendships alone.
  kept : (s : Sql A) → ((db : Db) → (state_of (s db)).friends ≡ db.friends) → KeepsRows IsMutual s
  kept =
      untouched-Keeps (λ db. db.friends)
        (λ fs. (x y : ℕ) → any (is_pair x y) fs ≡ any (is_pair y x) fs)

IsMutual-RowsKeep : RowsKeep IsMutual
IsMutual-RowsKeep = record {
  insert_user-Keeps =
      λ now uid name hash. kept (insert_user now uid name hash) (λ db. ground arith);
  insert_chat_message-Keeps = λ now a b content msg_type db v. v;
  insert_unless_sent-Keeps = λ now a b content msg_type cid.
      kept (insert_unless_sent now a b content msg_type cid) (λ db. ground arith);
  mark_seen-Keeps = λ a b db v. v;
  add_friend-Keeps = add_friend-IsMutual;
  insert_group-Keeps =
      λ now gid name owner. kept (insert_group now gid name owner) (λ db. ground arith);
  insert_owner-Keeps = λ now gid uid. kept (insert_owner now gid uid) (λ db. ground arith);
  insert_member-Keeps = λ now gid uid. kept (insert_member now gid uid) (λ db. ground arith);
  delete_member-Keeps = λ gid uid db v. v;
  insert_group_message-Keeps = λ now gid uid content msg_type.
      kept (insert_group_message now gid uid content msg_type none) (λ db. ground arith);
  insert_group_unless_sent-Keeps = λ now gid uid content msg_type cid.
      kept (insert_group_unless_sent now gid uid content msg_type cid) (λ db. ground arith);
  upsert_group_cursor-Keeps =
      λ uid gid last. kept (upsert_group_cursor uid gid last) (λ db. ground arith);
  increment_reads-Keeps = λ gid old last uid db v. v;
  delete_chats-Keeps = λ uid db v. v;
  delete_group-Keeps = λ gid db v. v;
  delete_sent-Keeps = λ uid db v. v;
  delete_cursors-Keeps = λ uid db v. v;
  delete_account-Keeps = delete_account-IsMutual;
}

-- If every friendship goes both ways then it does so after delete_user, at whichever statement this
-- stops.
delete_user-IsMutual :
    (uid : ℕ) (p : Pool) → IsMutual p.db → IsMutual (state_of (delete_user uid p)).db
delete_user-IsMutual uid p v =
    (RowsKeep-DaoKeeps IsMutual IsMutual-RowsKeep).delete_user-Keeps uid p v

-- If every friendship goes both ways then it does so after any writing statements of src/dao.rs, of
-- whichever operations, in whatever order and with whatever arguments; add_friend counts as one
-- statement.
Writes-IsMutual : {c d : Db} → IsMutual c → Writes c d → IsMutual d
Writes-IsMutual v w = Writes_keep IsMutual IsMutual-RowsKeep v w
