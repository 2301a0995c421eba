-- ===== src/State.antt =====
-- src/state.rs: the users who are online, and the channels and flags that their connections share
-- with the map. An `UnboundedSender` and an `Arc<AtomicBool>` are references to entries of the two
-- stores, so the clones of one alias.
pub mod Lookup
pub mod Delivery
use myx_im.Base.{
  ℕ, String, Bool, true, false, Option, none, some, List, [], ◌∷◌, ◌++◌, ◌==◌, if◌then◌else◌,
}
use myx_im.Model.{Uuid}

-- A text `{"cmd":…,"seq":…,"data":…}`, with the JSON of its data.
pub record Frame : Type 0 where
  pub cmd : String
  pub seq : ℕ
  pub body : String

-- An unbounded channel: whether its receiver is there still, and what waits in it, oldest first.
pub record Channel : Type 0 where
  pub open_ : Bool
  pub queue : List Frame

pub record OnlineUser : Type 0 where
  pub tx : ℕ
  pub alive : ℕ

pub record Online : Type 0 where
  pub online_users : List (Uuid × OnlineUser)
  pub channels : ℕ → Channel
  pub flags : ℕ → Bool

-- A store with one entry changed.
abbrev pub update {ℓ} : {A : Type ℓ} → (ℕ → A) → ℕ → A → ℕ → A
update f i a j = if j == i then a else f j

abbrev pub enqueue : Frame → Channel → Channel
enqueue msg c = record c { queue = c.queue ++ msg ∷ [] }

-- `mp.get(&uid)`
unfoldable pub get : Uuid → List (Uuid × OnlineUser) → Option OnlineUser
get uid [] = none
get uid ((u, o) ∷ rest) = if u == uid then some o else get uid rest

-- `mp.remove(&uid)`
unfoldable pub remove : Uuid → List (Uuid × OnlineUser) → List (Uuid × OnlineUser)
remove uid [] = []
remove uid ((u, o) ∷ rest) =
    let others = remove uid rest in if u == uid then others else (u, o) ∷ others

-- `tx.send(msg)`: it fails, and does nothing, where the receiver is gone.
unfoldable pub send : ℕ → Frame → Online → Bool × Online
send tx msg s =
    if (s.channels tx).open_
    then (true, record s { channels = update s.channels tx (enqueue msg (s.channels tx)) })
    else (false, s)

abbrev pub kicked_elsewhere : Frame
kicked_elsewhere = record { cmd = "kicked"; seq = 0; body = "{\"msg\":\"logged in elsewhere\"}" }

-- The notice to the connection that a new one replaces.
abbrev kick : Option OnlineUser → Online → Online
kick none s = s
kick (some old) s = (send old.tx kicked_elsewhere s).1

unfoldable pub insert_online_user : Uuid → ℕ → ℕ → Online → Online
unfolding send
insert_online_user uid tx alive s =
    let kicked = kick (get uid s.online_users) s in
    record kicked {
      online_users = (uid, record { tx = tx; alive = alive }) ∷ remove uid s.online_users;
    }

abbrev forget : Uuid → Online → Online
forget uid s = record s { online_users = remove uid s.online_users }

abbrev pub after_send : Uuid → OnlineUser → Bool × Online → Bool × Online
after_send uid o (true, s) = (true, s)
after_send uid o (false, s) =
    (false, forget uid (record s { flags = update s.flags o.alive false }))

abbrev deliver : Uuid → Frame → Option OnlineUser → Online → Bool × Online
deliver uid msg none s = (false, s)
deliver uid msg (some o) s =
    if s.flags o.alive then after_send uid o (send o.tx msg s) else (false, forget uid s)

unfoldable pub send_to_user : Uuid → Frame → Online → Bool × Online
unfolding send
send_to_user uid msg s = deliver uid msg (get uid s.online_users) s

unfoldable pub remove_online_user : Uuid → Online → Online
remove_online_user uid s = forget uid s

-- `AppState::new`: nobody is online.
abbrev pub new : Online
new = record {
  online_users = [];
  channels = λ i. record { open_ = false; queue = [] };
  flags = λ i. false;
}
