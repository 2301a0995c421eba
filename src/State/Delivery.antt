-- ===== src/State/Delivery.antt =====
-- What `send_to_user` and `insert_online_user` of src/state.rs promise.
use myx_im.Base.{
  ℕ, true, false, ◌≡◌, ◌↔◌, ap, none, some, ◌==◌, inl, inr, if◌then◌else◌, arith, Option-cases,
}
use myx_im.Model.{Uuid}
use myx_im.State.{
  Online, OnlineUser, Frame, get, update, enqueue, send_to_user, insert_online_user,
  kicked_elsewhere,
}
use myx_im.State.Lookup.{get-remove}

-- A connection of the user that can take a message: its flag is set and its receiver is there.
pub record IsReachable (uid : Uuid) (o : OnlineUser) (s : Online) : Type 0 where
  pub listed : get uid s.online_users ≡ some o
  pub alive : s.flags o.alive ≡ true
  pub receiving : (s.channels o.tx).open_ ≡ true

-- What `send_to_user` does for a reachable user.
pub send_to_user-reachable :
    (uid : Uuid) (msg : Frame) (s : Online) (o : OnlineUser)
    → IsReachable uid o s
    → send_to_user uid msg s
      ≡ (true, record s { channels = update s.channels o.tx (enqueue msg (s.channels o.tx)) })
unfolding send_to_user
send_to_user-reachable uid msg s o r = ground arith

send_to_user-true :
    (uid : Uuid) (msg : Frame) (s : Online)
    → (send_to_user uid msg s).0 ≡ true
    → (o : OnlineUser) × IsReachable uid o s
unfolding send_to_user
send_to_user-true uid msg s h = elim (Option-cases (get uid s.online_users)) [
  | inl e ↦ absurd (ground arith)
  | inr (o, e) ↦ (o, ground arith)
]

-- `send_to_user` says true exactly where the user has a reachable connection; then the message is
-- at the end of this connection's queue and nothing else has changed.
pub send_to_user-true_iff :
    (uid : Uuid) (msg : Frame) (s : Online)
    → ((send_to_user uid msg s).0 ≡ true) ↔ (
        (o : OnlineUser) × IsReachable uid o s
        × (send_to_user uid msg s ≡ (
          true,
          record s { channels = update s.channels o.tx (enqueue msg (s.channels o.tx)) },
        )))
send_to_user-true_iff uid msg s = (
  λ h. let (o, r) = send_to_user-true uid msg s h in (o, r, send_to_user-reachable uid msg s o r),
  λ w. ap (λ p. p.0) w.2,
)

-- Where `send_to_user` says false no channel changes, the user is no longer listed, and every
-- other user is found as before.
send_to_user-false :
    (uid v : Uuid) (msg : Frame) (s : Online)
    → (send_to_user uid msg s).0 ≡ false
    → ((send_to_user uid msg s).1.channels ≡ s.channels)
      × (get v (send_to_user uid msg s).1.online_users
          ≡ (if v == uid then none else get v s.online_users))
unfolding send_to_user
send_to_user-false uid v msg s h = (ground arith, ground (arith, get-remove uid v s.online_users))

-- A second connection of a user takes the place of the first in the map; the first, if it is there
-- to be told, has the notice at the end of its queue, and no other channel changes.
insert_online_user-replaces :
    (uid tx alive v : ℕ) (s : Online) (old : OnlineUser)
    → get uid s.online_users ≡ some old
    → let after = insert_online_user uid tx alive s in
      (get v after.online_users
        ≡ (if v == uid then some (record { tx = tx; alive = alive }) else get v s.online_users))
      × (after.channels ≡ (
          if (s.channels old.tx).open_
          then update s.channels old.tx (enqueue kicked_elsewhere (s.channels old.tx))
          else s.channels))
unfolding insert_online_user get
insert_online_user-replaces uid tx alive v s old e =
    (ground (arith, get-remove uid v s.online_users), ground arith)
