-- ===== src/Router/Ws/Groups.antt =====
-- src/router.rs, "group_chat": whom a group message reaches.
use myx_im.Base.{
  ℕ, ◌≡◌, ◌≢◌, refl, sym, ◌∙◌, true, false, not, ◌&&◌, some, List, [], ◌∷◌, ◌==◌, arith, any, inl,
  inr, Bool-cases, Option-cases, ap, subst, ==_iff,
}
use myx_im.State.{Online, OnlineUser, Frame, get, enqueue, send_to_user}
use myx_im.State.Lookup.{get-remove}
use myx_im.State.Delivery.{IsReachable, send_to_user-reachable}
use myx_im.Router.App.{AppState, push}
use myx_im.Router.Ws.{push_members}
use myx_im.Router.Socket.{Server, start, Reach}
use myx_im.Router.Socket.Isolation.{Reach-IsSound, other_channel, send_to_user-entries}

-- Different users have different connections.
abbrev pub Separate : Online → Type 0
Separate s =
    (u v : ℕ) (o e : OnlineUser)
    → get u s.online_users ≡ some o
    → get v s.online_users ≡ some e
    → u ≢ v
    → (o.tx ≢ e.tx) × (o.alive ≢ e.alive)

pub Reach-Separate : {s : Server} → Reach start s → Separate s.online
Reach-Separate {s} r u v o e p q ne =
    let a = (Reach-IsSound r).entries u o p in
    let b = (Reach-IsSound r).entries v e q in
    let same : o.tx ≡ e.tx → u ≡ v = λ t. sym a.2 ∙ ap s.owner t ∙ b.2 in
    (λ t. ne (same t), λ t. ne (same (a.0 ∙ t ∙ sym b.0)))

-- A push to one user leaves the connections apart, and another user's as reachable as it was.
pub push-Separate :
    (m : ℕ) (msg : Frame) (s : Online) → Separate s → Separate (send_to_user m msg s).1
push-Separate m msg s h u v o e p q =
    h u v o e (send_to_user-entries m u msg s o p) (send_to_user-entries m v msg s e q)

other_listed :
    (m u : ℕ) (msg : Frame) (s : Online)
    → m ≢ u
    → get u (send_to_user m msg s).1.online_users ≡ get u s.online_users
unfolding send_to_user
other_listed m u msg s ne = ground (arith, get-remove m u s.online_users)

other_flag :
    (m i : ℕ) (msg : Frame) (s : Online)
    → ((e : OnlineUser) → get m s.online_users ≡ some e → e.alive ≢ i)
    → (send_to_user m msg s).1.flags i ≡ s.flags i
unfolding send_to_user
other_flag m i msg s h = elim (Option-cases (get m s.online_users)) [
  | inl e ↦ ground arith
  | inr (e, p) ↦ ground (arith, h e p)
]

pub other_queue :
    (m u : ℕ) (o : OnlineUser) (msg : Frame) (s : Online)
    → Separate s
    → m ≢ u
    → IsReachable u o s
    → (send_to_user m msg s).1.channels o.tx ≡ s.channels o.tx
other_queue m u o msg s h ne r = other_channel m o.tx msg s (λ e p. (h m u e o p r.listed ne).0)

pub other-IsReachable :
    (m u : ℕ) (o : OnlineUser) (msg : Frame) (s : Online)
    → Separate s
    → m ≢ u
    → IsReachable u o s
    → IsReachable u o (send_to_user m msg s).1
other-IsReachable m u o msg s h ne r = record {
  listed = other_listed m u msg s ne ∙ r.listed;
  alive = other_flag m o.alive msg s (λ e p. (h m u e o p r.listed ne).1) ∙ r.alive;
  receiving = rw (other_queue m u o msg s h ne r) r.receiving;
}

pub self_queue :
    (u : ℕ) (o : OnlineUser) (msg : Frame) (s : Online)
    → IsReachable u o s
    → (send_to_user u msg s).1.channels o.tx ≡ enqueue msg (s.channels o.tx)
self_queue u o msg s r = rw (send_to_user-reachable u msg s o r) (ground arith)

pub self-IsReachable :
    (u : ℕ) (o : OnlineUser) (msg : Frame) (s : Online)
    → IsReachable u o s
    → IsReachable u o (send_to_user u msg s).1
self-IsReachable u o msg s r =
    rw (send_to_user-reachable u msg s o r)
      (record { listed = r.listed; alive = r.alive; receiving = ground (arith, r.receiving) })

-- No user stands twice in the list.
abbrev pub Distinct : List ℕ → Type 0
Distinct [] = Unit {0}
Distinct (m ∷ ms) = (any (λ n. n == m) ms ≡ false) × Distinct ms

module _ (uid u : ℕ) (o : OnlineUser) (msg : Frame) where
  -- Users who are not in the list, and the sender, get nothing.
  pub push_members-others :
      (ms : List ℕ) (s : AppState)
      → Separate s.online
      → IsReachable u o s.online
      → any (λ m. m == u && not (m == uid)) ms ≡ false
      → (push_members uid msg ms s).online.channels o.tx ≡ s.online.channels o.tx
  push_members-others [] s h r a = refl
  push_members-others (m ∷ ms) s h r a = elim (Bool-cases (m == uid)) [
    | inl e ↦ rw (e, push_members) (push_members-others ms s h r (ground arith))
    | inr e ↦
        let ne : m ≢ u = λ q. ground arith in
        rw (e, push_members)
          (push_members-others ms (push m msg s) (push-Separate m msg s.online h)
              (other-IsReachable m u o msg s.online h ne r) (ground arith)
            ∙ other_queue m u o msg s.online h ne r)
  ]

  absent :
      (m : ℕ) (ms : List ℕ)
      → any (λ n. n == m) ms ≡ false
      → m ≡ u
      → any (λ n. n == u && not (n == uid)) ms ≡ false
  absent m [] a e = refl
  absent m (x ∷ xs) a e = ground (arith, absent m xs)

  -- A member other than the sender who can be reached gets the message once, whatever the order of
  -- the list, and nothing else is put into the member's channel.
  pub push_members-once :
      (ms : List ℕ) (s : AppState)
      → Distinct ms
      → Separate s.online
      → IsReachable u o s.online
      → u ≢ uid
      → any (λ m. m == u) ms ≡ true
      → (push_members uid msg ms s).online.channels o.tx ≡ enqueue msg (s.online.channels o.tx)
  push_members-once [] s d h r ne a = cc
  push_members-once (m ∷ ms) s d h r ne a = elim (Bool-cases (m == uid)) [
    | inl e ↦ rw (e, push_members) (push_members-once ms s d.1 h r ne (ground arith))
    | inr e ↦ elim (Bool-cases (m == u)) [
      | inl k ↦
          let me : m ≡ u = (==_iff m u).0 k in
          let r' : IsReachable m o s.online = subst (λ x. IsReachable x o s.online) (sym me) r in
          rw (e, push_members)
            (push_members-others ms (push m msg s) (push-Separate m msg s.online h)
                (subst (λ x. IsReachable x o (push m msg s).online) me
                  (self-IsReachable m o msg s.online r'))
                (absent m ms d.0 me)
              ∙ self_queue m o msg s.online r')
      | inr k ↦
          let other : m ≢ u = λ q. ground arith in
          rw (e, push_members)
            (push_members-once ms (push m msg s) d.1 (push-Separate m msg s.online h)
                (other-IsReachable m u o msg s.online h other r) ne (ground arith)
              ∙ ap (enqueue msg) (other_queue m u o msg s.online h other r))
    ]
  ]
