-- ===== src/Router/Socket/Order.antt =====
-- src/router.rs: the order in which the client of a connection gets what is sent to it.
use mathlib.Core.List.{append_assoc, append-nil, Sublistᴰ}
use mathlib.Core.List.Sublistᴰ
use myx_im.Base.{
  ℕ, Bool, true, false, ◌≡◌, ◌⊎◌, inl, inr, refl, sym, subst, ap, Option, none, some, List, [], ◌∷◌,
  ◌++◌, ◌==◌, arith, Bool-cases, Option-cases, ==_iff, if◌then◌else◌,
}
use myx_im.State.{
  Online, OnlineUser, Frame, Channel, get, after_send, update, send, send_to_user,
  insert_online_user, remove_online_user, kicked_elsewhere,
}
use myx_im.Router.Socket.{
  Server, start, opened, fresh_channel, unflag, dropped, taken, Step, connects, notifies,
  notifies_late, replies, forwards, fails, ends, drops, removes, Reach, here, next_step,
}

-- What the client of a connection has been written, and then what waits for it.
abbrev pub stream : ℕ → Server → List Frame
stream i s = s.written i ++ (s.online.channels i).queue

-- A frame for the connection that the map has for a user, where it is this one.
abbrev for_entry : ℕ → Option OnlineUser → Frame → List Frame
for_entry i none msg = []
for_entry i (some o) msg = if i == o.tx then msg ∷ [] else []

-- The frame that a step of the server addresses to a connection: the message to its user, an answer
-- on it, or the notice that another takes its place.
abbrev pub addressed : ℕ → {s t : Server} → Step s t → List Frame
addressed i (connects s uid) = for_entry i (get uid s.online.online_users) kicked_elsewhere
addressed i (notifies s uid msg) = for_entry i (get uid s.online.online_users) msg
addressed i (notifies_late s uid msg o e) = if i == o.tx then msg ∷ [] else []
addressed i (replies s j msg lt) = if i == j then msg ∷ [] else []
addressed i (forwards s j msg rest e) = []
addressed i (fails s j msg rest e) = []
addressed i (ends s j) = []
addressed i (drops s j e) = []
addressed i (removes s uid) = []

-- All the frames that a run addresses to a connection, in order.
abbrev pub handed : ℕ → {s t : Server} → Reach s t → List Frame
handed i here = []
handed i (next_step r st) = handed i r ++ addressed i st

-- The new frame is put at the end of the queue, or left out.
abbrev Grows : List Frame → List Frame → List Frame → Type 0
Grows q x q' = (q' ≡ q ++ x) ⊎ (q' ≡ q)

send-Grows :
    (tx i : ℕ) (msg : Frame) (o : Online)
    → Grows
        (o.channels i).queue
        (if i == tx then msg ∷ [] else [])
        ((send tx msg o).1.channels i).queue
unfolding send
send-Grows tx i msg o = elim (Bool-cases (o.channels tx).open_) [
  | inl e ↦ inl (elim (Bool-cases (i == tx)) [
    | inl k ↦ grind (arith, ==_iff i tx)
    | inr k ↦ ground (arith, append-nil (o.channels i).queue)
  ])
  | inr e ↦ inr (ground arith)
]

-- The clean-up after a send leaves the queues alone.
after_send-channels :
    (uid i : ℕ) (u : OnlineUser) (r : Bool × Online)
    → (after_send uid u r).1.channels i ≡ r.1.channels i
after_send-channels uid i u (true, s) = refl
after_send-channels uid i u (false, s) = refl

entry-Grows :
    (uid i : ℕ) (msg : Frame) (o : Online)
    → Grows
        (o.channels i).queue
        (for_entry i (get uid o.online_users) msg)
        ((send_to_user uid msg o).1.channels i).queue
unfolding send_to_user
entry-Grows uid i msg o = elim (Option-cases (get uid o.online_users)) [
  | inl e ↦ rw e (inr refl)
  | inr (u, e) ↦ rw e (elim (Bool-cases (o.flags u.alive)) [
    | inl k ↦ rw k (
        subst (λ c. Grows (o.channels i).queue (for_entry i (some u) msg) c.queue)
          (sym (after_send-channels uid i u (send u.tx msg o))) (send-Grows u.tx i msg o))
    | inr k ↦ rw k (inr refl)
  ])
]

kick-Grows :
    (uid tx alive i : ℕ) (o : Online)
    → Grows
        (o.channels i).queue
        (for_entry i (get uid o.online_users) kicked_elsewhere)
        ((insert_online_user uid tx alive o).channels i).queue
unfolding insert_online_user
kick-Grows uid tx alive i o = elim (Option-cases (get uid o.online_users)) [
  | inl e ↦ rw e (inr refl)
  | inr (u, e) ↦ rw e (send-Grows u.tx i kicked_elsewhere o)
]

grown : (w q x q' : List Frame) → Grows q x q' → Sublistᴰ (w ++ q') ((w ++ q) ++ x)
grown w q x q' (inl e) =
    subst (λ l. Sublistᴰ (w ++ q') l) (sym (append_assoc w q x))
      (subst (λ l. Sublistᴰ (w ++ q') (w ++ l)) e (Sublistᴰ.refl (w ++ q')))
grown w q x q' (inr e) =
    subst (λ l. Sublistᴰ (w ++ l) ((w ++ q) ++ x)) (sym e)
      (subst (λ l. Sublistᴰ l ((w ++ q) ++ x)) (append-nil (w ++ q))
        (Sublistᴰ.append (Sublistᴰ.refl (w ++ q)) (Sublistᴰ.nil-sublist x)))

unchanged : {a b : List Frame} → Sublistᴰ a b → Sublistᴰ a (b ++ [])
unchanged {a} {b} h = subst (λ l. Sublistᴰ a l) (sym (append-nil b)) h

-- A queue that has become shorter.
shorter :
    (channels : ℕ → Channel) (i j : ℕ) (c : Channel)
    → Sublistᴰ c.queue (channels i).queue
    → Sublistᴰ (update channels i c j).queue (channels j).queue
shorter channels i j c h = elim (Bool-cases (j == i)) [
  | inl e ↦ rw (e, (==_iff j i).0 e) h
  | inr e ↦ rw e (Sublistᴰ.refl (channels j).queue)
]

-- A frame that is written moves from the queue to the end of what has been written.
moved :
    (s : Server) (i j : ℕ) (msg : Frame) (rest : List Frame)
    → s.online.channels i ≡ record { open_ = true; queue = msg ∷ rest }
    → stream j s
      ≡ stream j
          (record (taken i rest s) { written = update s.written i (s.written i ++ msg ∷ []) })
moved s i j msg rest e = elim (Bool-cases (j == i)) [
  | inl k ↦
      rw (k, (==_iff j i).0 k, ap (λ c. c.queue) e)
        (sym (append_assoc (s.written i) (msg ∷ []) rest))
  | inr k ↦ rw k refl
]

-- A step that writes nothing and makes a queue no longer.
less :
    (i : ℕ) (s t : Server)
    → t.written i ≡ s.written i
    → Sublistᴰ (t.online.channels i).queue (s.online.channels i).queue
    → Sublistᴰ (stream i t) (stream i s)
less i s t e h =
    subst (λ w. Sublistᴰ (w ++ (t.online.channels i).queue) (stream i s)) (sym e)
      (Sublistᴰ.append (Sublistᴰ.refl (s.written i)) h)

stream-Step :
    (i : ℕ) {s t : Server} (st : Step s t) → Sublistᴰ (stream i t) (stream i s ++ addressed i st)
unfolding remove_online_user
stream-Step i (connects s uid) =
    let o = opened s.next s.online in
    Sublistᴰ.trans (grown (s.written i) (o.channels i).queue _ _ (kick-Grows uid s.next s.next i o))
      (Sublistᴰ.append
        (Sublistᴰ.append (Sublistᴰ.refl (s.written i))
          (shorter s.online.channels s.next i fresh_channel (Sublistᴰ.nil-sublist _)))
        (Sublistᴰ.refl _))
stream-Step i (notifies s uid msg) = grown (s.written i) _ _ _ (entry-Grows uid i msg s.online)
stream-Step i (notifies_late s uid msg o e) = grown (s.written i) _ _ _ (
    subst (λ c. Grows (s.online.channels i).queue (if i == o.tx then msg ∷ [] else []) c.queue)
      (sym (after_send-channels uid i o (send o.tx msg s.online))) (send-Grows o.tx i msg s.online))
stream-Step i (replies s j msg lt) = grown (s.written i) _ _ _ (send-Grows j i msg s.online)
stream-Step i (forwards s j msg rest e) =
    unchanged (subst (λ l. Sublistᴰ l (stream i s)) (moved s j i msg rest e) (Sublistᴰ.refl _))
stream-Step i (fails s j msg rest e) = unchanged (
    less i s (unflag j (taken j rest s)) refl (
      shorter s.online.channels j i (record { open_ = true; queue = rest })
        (subst (λ c. Sublistᴰ rest c.queue) (sym e) (Sublistᴰ.cons (Sublistᴰ.refl rest)))))
stream-Step i (ends s j) = unchanged (Sublistᴰ.refl _)
stream-Step i (drops s j e) = unchanged (
    less i s (dropped j s) refl (
      shorter s.online.channels j i (record { open_ = false; queue = [] })
        (Sublistᴰ.nil-sublist _)))
stream-Step i (removes s uid) = unchanged (Sublistᴰ.refl (stream i s))

-- Whatever a run of the connections does, what the client of a connection has been written, and then
-- what waits for it, are frames that the run addressed to that connection, in the order in which it
-- did, and none of them more than once.
pub stream-handed : (i : ℕ) {t : Server} (r : Reach start t) → Sublistᴰ (stream i t) (handed i r)
stream-handed i here = Sublistᴰ.slnil
stream-handed i (next_step r st) =
    Sublistᴰ.trans (stream-Step i st) (Sublistᴰ.append (stream-handed i r) (Sublistᴰ.refl _))
