-- ===== src/Router/Sync/Order.antt =====
-- src/router.rs: what a new connection is sent, and in which order.
use myx_im.Base.{
  ℕ, ◌≡◌, refl, sym, ◌∙◌, ap, String, Bool, true, some, List, [], ◌∷◌, ◌++◌, map, filter, take,
  sort_by, find?, any, ◌==◌, arith, subst, Bool-cases, inl, inr, ==_iff,
}
use myx_im.Base.Int.{pos}
use myx_im.Base.Outcome.{ok}
use myx_im.Base.Rows.{All, All-map}
use myx_im.Model.{User, ChatHistoryItem, GroupHistoryItem}
use myx_im.Model.Wire.{PrivatePushMsg, GroupPushMsg}
use myx_im.Db.{Db}
use myx_im.Db.Statement.{healthy}
use myx_im.Dao.Chat.{get_unseen_messages}
use myx_im.Dao.GroupMessages.{get_unseen_group_messages, join_senders, earlier_first, is_unread}
use myx_im.State.{Online, Frame}
use myx_im.Router.App.{AppState, Json, frame, reply}
use myx_im.Router.Sync.{
  name_of, name_in, private_push_of, group_push_of, send_private, send_group, with_names,
  sync_private, sync_groups, sync,
}
use myx_im.Router.Sync.Sends.{Sends, reply_all, Sends-trans, reply_all-Sends}

find?-filter :
    (p q : User → Bool) (xs : List User)
    → ((u : User) → p u ≡ true → q u ≡ true)
    → find? p (filter q xs) ≡ find? p xs
find?-filter p q [] h = refl
find?-filter p q (x ∷ xs) h = elim (Bool-cases (p x)) [
  | inl e ↦ ground (arith, h x e)
  | inr e ↦ ground (arith, find?-filter p q xs h)
]

abbrev IsSender : List ℕ → ChatHistoryItem → Type 0
IsSender uids m = any (λ uid. m.from_uid == uid) uids ≡ true

senders-IsSender : (ms : List ChatHistoryItem) → All (IsSender (map (λ m. m.from_uid) ms)) ms
senders-IsSender [] = tt
senders-IsSender (m ∷ ms) =
    (ground arith, All-map _ _ ms (λ a h. ground arith) (senders-IsSender ms))

-- The names that are looked up for the senders are those of the table.
name_of-selected :
    (uids : List ℕ) (m : ChatHistoryItem) (users : List User)
    → IsSender uids m
    → name_of m.from_uid (filter (λ u. any (λ uid. u.id == uid) uids) users)
      ≡ name_of m.from_uid users
name_of-selected uids m users h = ap name_in (
    find?-filter _ _ users (λ u k.
      subst (λ x. any (λ uid. x == uid) uids ≡ true) (sym ((==_iff u.id m.from_uid).0 k)) h))

module _ {V : Type 0} (json : Json V) (uid tx : ℕ) (text : PrivatePushMsg → String)
    (group_text : GroupPushMsg → String)
    (written : (m : PrivatePushMsg) → json.private_push m ≡ some (text m))
    (group_written : (m : GroupPushMsg) → json.group_push m ≡ some (group_text m)) where
  abbrev pub private_frame : List User → ChatHistoryItem → Frame
  private_frame users m = frame "private_push" 0 (text (private_push_of users m))

  abbrev pub group_frame : GroupHistoryItem → Frame
  group_frame m = frame "group_push" 0 (group_text (group_push_of m))

  send_private_all :
      (names : List User) (ms : List ChatHistoryItem) (s : AppState)
      → send_private json uid tx names ms s ≡ reply_all tx (map (private_frame names) ms) s
  send_private_all names [] s = refl
  send_private_all names (m ∷ ms) s =
      rw (send_private, written (private_push_of names m))
        (send_private_all names ms (reply tx (private_frame names m) s))

  send_group_all :
      (ms : List GroupHistoryItem) (s : AppState)
      → send_group json uid tx ms s ≡ reply_all tx (map group_frame ms) s
  send_group_all [] s = refl
  send_group_all (m ∷ ms) s =
      rw (send_group, group_written (group_push_of m))
        (send_group_all ms (reply tx (group_frame m) s))

  selected_frames :
      (uids : List ℕ) (users : List User) (ms : List ChatHistoryItem)
      → All (IsSender uids) ms
      → map (private_frame (filter (λ u. any (λ uid. u.id == uid) uids) users)) ms
        ≡ map (private_frame users) ms
  selected_frames uids users [] h = refl
  selected_frames uids users (m ∷ ms) h =
      rw (name_of-selected uids m users h.0, selected_frames uids users ms h.1) refl

  with_names-Sends :
      (ms : List ChatHistoryItem) (db : Db) (online : Online)
      → (online.channels tx).open_ ≡ true
      → let before : AppState = record { pool = healthy db; online = online } in
        Sends tx (map (private_frame db.users) ms) before (with_names json uid tx ms before)
  with_names-Sends [] db online o =
      reply_all-Sends tx [] (record { pool = healthy db; online = online }) o
  with_names-Sends (m ∷ ms) db online o =
      let before : AppState = record { pool = healthy db; online = online } in
      let uids = map (λ m. m.from_uid) (m ∷ ms) in
      let names = filter (λ u. any (λ uid. u.id == uid) uids) db.users in
      subst (λ t. Sends tx (map (private_frame db.users) (m ∷ ms)) before t)
        (sym (
          send_private_all names (m ∷ ms) before
          ∙ ap (λ l. reply_all tx l before)
              (selected_frames uids db.users (m ∷ ms) (senders-IsSender (m ∷ ms)))))
        (reply_all-Sends tx (map (private_frame db.users) (m ∷ ms)) before o)

  send_group-Sends :
      (ms : List GroupHistoryItem) (s : AppState)
      → (s.online.channels tx).open_ ≡ true
      → Sends tx (map group_frame ms) s (send_group json uid tx ms s)
  send_group-Sends ms s o = rw (send_group_all ms s) (reply_all-Sends tx (map group_frame ms) s o)

  sync_groups-Sends :
      (db : Db) (s : AppState)
      → s.pool ≡ healthy db
      → (s.online.channels tx).open_ ≡ true
      → (groups : List GroupHistoryItem) × (get_unseen_group_messages uid (pos 200) (healthy db)
          ≡ ok groups (healthy db))
        × Sends tx (map group_frame groups) s (sync_groups json uid tx s)
  unfolding get_unseen_group_messages
  sync_groups-Sends db s p o =
      let before : AppState = record { pool = healthy db; online = s.online } in
      let groups : List GroupHistoryItem =
        take 200
          (join_senders db (sort_by earlier_first (filter (is_unread uid db) db.group_messages))) in
      (
        groups,
        refl,
        subst
            (λ q.
              Sends tx (map group_frame groups) (record s { pool = q })
                (sync_groups json uid tx (record s { pool = q })))
            (sym p) (send_group-Sends groups before o),
      )

  -- On connect, where no statement fails and every push can be written, the connection's channel is
  -- put, behind what waits in it, one push for each message of get_unseen_messages, in its order and
  -- with the name of the sender's account; then one for each of get_unseen_group_messages. The
  -- database and every other channel are as before.
  pub sync-Sends :
      (db : Db) (online : Online)
      → (online.channels tx).open_ ≡ true
      → (privates : List ChatHistoryItem) × (groups : List GroupHistoryItem) × (get_unseen_messages
            uid
            (pos 200)
            (healthy db)
          ≡ ok privates (healthy db))
        × (get_unseen_group_messages uid (pos 200) (healthy db) ≡ ok groups (healthy db))
        × Sends tx
            (map (private_frame db.users) privates ++ map group_frame groups)
            (record { pool = healthy db; online = online })
            (sync json uid tx (record { pool = healthy db; online = online }))
  unfolding sync get_unseen_messages get_unseen_group_messages
  sync-Sends db online o =
      let before : AppState = record { pool = healthy db; online = online } in
      let private = with_names-Sends _ db online o in
      let group =
        sync_groups-Sends db (sync_private json uid tx before) private.0
          (ap (λ c. c.open_) private.1 ∙ o) in
      (
        _,
        group.0,
        refl,
        group.1,
        Sends-trans tx _ _ before (sync_private json uid tx before) (sync json uid tx before)
            private group.2,
      )
