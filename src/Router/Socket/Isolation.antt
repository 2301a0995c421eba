-- ===== src/Router/Socket/Isolation.antt =====
-- What holds of the connections of src/router.rs after any sequence of steps, in any order.
use myx_im.Base.{
  ℕ, ◌<◌, ◌≡◌, ◌≢◌, refl, subst, Bool, true, false, some, ◌==◌, arith, Option-cases, inl, inr,
  if◌then◌else◌,
}
use myx_im.Model.{Uuid}
use myx_im.State.{
  Online, OnlineUser, Frame, get, after_send, send, send_to_user, insert_online_user,
  remove_online_user,
}
use myx_im.State.Lookup.{get-remove}
use myx_im.Router.Socket.{
  Server, start, opened, connect, Step, connects, notifies, notifies_late, replies, forwards, fails,
  ends, drops, removes, Reach, here, next_step,
}

-- An entry of the map is a connection of that user.
abbrev pub Owned : ℕ → (ℕ → ℕ) → Uuid → OnlineUser → Type 0
Owned next owner u o = (o.tx ≡ o.alive) × (o.tx < next) × (owner o.tx ≡ u)

pub record IsSound (s : Server) : Type 0 where
  pub entries :
      (u : ℕ) (o : OnlineUser) → get u s.online.online_users ≡ some o → Owned s.next s.owner u o
  pub flagged : (i : ℕ) → s.online.flags i ≡ true → (s.online.channels i).open_ ≡ true

-- A send leaves the map, the flags and the receivers alone.
send-open :
    (tx : ℕ) (msg : Frame) (o : Online) (i : ℕ)
    → ((send tx msg o).1.channels i).open_ ≡ (o.channels i).open_
unfolding send
send-open tx msg o i = ground arith

send-rest :
    (tx : ℕ) (msg : Frame) (o : Online)
    → ((send tx msg o).1.online_users ≡ o.online_users) × ((send tx msg o).1.flags ≡ o.flags)
unfolding send
send-rest tx msg o = ground arith

send_to_user-flagged :
    (uid : ℕ) (msg : Frame) (o : Online) (i : ℕ)
    → (o.flags i ≡ true → (o.channels i).open_ ≡ true)
    → (send_to_user uid msg o).1.flags i ≡ true
    → ((send_to_user uid msg o).1.channels i).open_ ≡ true
unfolding send_to_user
send_to_user-flagged uid msg o i h f = ground arith

pub send_to_user-entries :
    (uid u : ℕ) (msg : Frame) (o : Online) (e : OnlineUser)
    → get u (send_to_user uid msg o).1.online_users ≡ some e
    → get u o.online_users ≡ some e
unfolding send_to_user
send_to_user-entries uid u msg o e h = ground (arith, get-remove uid u o.online_users)

insert-flags : (uid tx alive : ℕ) (o : Online) → (insert_online_user uid tx alive o).flags ≡ o.flags
unfolding insert_online_user
insert-flags uid tx alive o = ground arith

insert-open :
    (uid tx alive : ℕ) (o : Online) (i : ℕ)
    → ((insert_online_user uid tx alive o).channels i).open_ ≡ (o.channels i).open_
unfolding insert_online_user
insert-open uid tx alive o i = ground arith

insert-get :
    (uid tx alive u : ℕ) (o : Online)
    → get u (insert_online_user uid tx alive o).online_users
      ≡ (if uid == u then some (record { tx = tx; alive = alive }) else get u o.online_users)
unfolding insert_online_user get
insert-get uid tx alive u o = ground (arith, get-remove uid u o.online_users)

remove-get :
    (uid u : ℕ) (o : Online) (e : OnlineUser)
    → get u (remove_online_user uid o).online_users ≡ some e
    → get u o.online_users ≡ some e
unfolding remove_online_user
remove-get uid u o e h = ground (arith, get-remove uid u o.online_users)

remove-rest :
    (uid : ℕ) (o : Online)
    → ((remove_online_user uid o).flags ≡ o.flags)
      × ((remove_online_user uid o).channels ≡ o.channels)
unfolding remove_online_user
remove-rest uid o = (refl, refl)

start-IsSound : IsSound start
unfolding get
start-IsSound = record { entries = λ u o h. cc; flagged = λ i h. cc }

connect-IsSound : (s : Server) (uid : ℕ) → IsSound s → IsSound (connect uid s)
connect-IsSound s uid v = record {
  entries = λ u o h.
      ground (arith, insert-get uid s.next s.next u (opened s.next s.online), v.entries u o);
  flagged = λ i h. ground (
    arith,
    insert-flags uid s.next s.next (opened s.next s.online),
    insert-open uid s.next s.next (opened s.next s.online) i,
    v.flagged i,
  );
}

-- The clean-up after a send only takes entries out and flags down.
after_send-entries :
    (uid u : ℕ) (e : OnlineUser) (r : Bool × Online) (o : OnlineUser)
    → get u (after_send uid e r).1.online_users ≡ some o
    → get u r.1.online_users ≡ some o
after_send-entries uid u e (true, s) o h = h
after_send-entries uid u e (false, s) o h = ground (arith, get-remove uid u s.online_users)

after_send-flagged :
    (uid i : ℕ) (e : OnlineUser) (r : Bool × Online)
    → (r.1.flags i ≡ true → (r.1.channels i).open_ ≡ true)
    → (after_send uid e r).1.flags i ≡ true
    → ((after_send uid e r).1.channels i).open_ ≡ true
after_send-flagged uid i e (true, s) h k = h k
after_send-flagged uid i e (false, s) h k = ground arith

-- Each step keeps the server sound.
Step-IsSound : {s t : Server} → Step s t → IsSound s → IsSound t
Step-IsSound (connects s uid) v = connect-IsSound s uid v
Step-IsSound (notifies s uid msg) v = record {
  entries = λ u o h. v.entries u o (send_to_user-entries uid u msg s.online o h);
  flagged = λ i h. send_to_user-flagged uid msg s.online i (v.flagged i) h;
}
Step-IsSound (notifies_late s uid msg e h) v = record {
  entries = λ u o k. ground (
    arith,
    after_send-entries uid u e (send e.tx msg s.online) o k,
    send-rest e.tx msg s.online,
    v.entries u o,
  );
  flagged = λ i k.
      after_send-flagged uid i e (send e.tx msg s.online)
        (λ f.
          ground (arith, send-rest e.tx msg s.online, send-open e.tx msg s.online i, v.flagged i))
        k;
}
Step-IsSound (replies s i msg lt) v = record {
  entries = λ u o h. ground (arith, send-rest i msg s.online, v.entries u o);
  flagged =
      λ j h. ground (arith, send-rest i msg s.online, send-open i msg s.online j, v.flagged j);
}
Step-IsSound (forwards s i msg rest e) v = record {
  entries = v.entries;
  flagged = λ j h. ground (arith, v.flagged j);
}
Step-IsSound (fails s i msg rest e) v = record {
  entries = v.entries;
  flagged = λ j h. ground (arith, v.flagged j);
}
Step-IsSound (ends s i) v = record {
  entries = v.entries;
  flagged = λ j h. ground (arith, v.flagged j);
}
Step-IsSound (drops s i e) v = record {
  entries = v.entries;
  flagged = λ j h. ground (arith, v.flagged j);
}
Step-IsSound (removes s uid) v = record {
  entries = λ u o h. v.entries u o (remove-get uid u s.online o h);
  flagged = λ j h. ground (arith, remove-rest uid s.online, v.flagged j);
}

-- In every state that the server can reach, by whatever interleaving, an entry of the map is a
-- connection of that very user, and a connection whose flag is set has its receiver.
pub Reach-IsSound : {s : Server} → Reach start s → IsSound s
Reach-IsSound here = start-IsSound
Reach-IsSound (next_step r st) = Step-IsSound st (Reach-IsSound r)

pub other_channel :
    (uid i : ℕ) (msg : Frame) (o : Online)
    → ((e : OnlineUser) → get uid o.online_users ≡ some e → e.tx ≢ i)
    → (send_to_user uid msg o).1.channels i ≡ o.channels i
unfolding send_to_user
other_channel uid i msg o h = elim (Option-cases (get uid o.online_users)) [
  | inl e ↦ ground arith
  | inr (e, p) ↦ ground (arith, h e p)
]

-- In a reachable state a message to one user never touches the channel of another user's
-- connection.
pub Reach-isolated :
    {s : Server} (uid i : ℕ) (msg : Frame)
    → Reach start s
    → s.owner i ≢ uid
    → (send_to_user uid msg s.online).1.channels i ≡ s.online.channels i
Reach-isolated {s} uid i msg r ne =
    other_channel uid i msg s.online
      λ e p q. ne (subst (λ t. s.owner t ≡ uid) q ((Reach-IsSound r).entries uid e p).2)
