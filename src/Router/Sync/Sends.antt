-- ===== src/Router/Sync/Sends.antt =====
-- src/router.rs: a task that sends one frame after the other on its own channel.
use myx_im.Base.{ℕ, ◌≡◌, ◌≢◌, refl, sym, ◌∙◌, ap, true, List, [], ◌∷◌, ◌++◌, arith}
use mathlib.Core.List.{append_assoc, append-nil}
use myx_im.State.{Frame, Channel, send}
use myx_im.Router.App.{AppState, reply}

-- A channel with frames behind those that wait in it.
abbrev pub behind : Channel → List Frame → Channel
behind c msgs = record c { queue = c.queue ++ msgs }

-- The channel `tx` has more frames behind those that waited, and all else is as it was.
abbrev pub Sends : ℕ → List Frame → AppState → AppState → Type 0
Sends tx msgs s t =
    (t.pool ≡ s.pool)
    × (t.online.channels tx ≡ behind (s.online.channels tx) msgs)
    × ((i : ℕ) → i ≢ tx → t.online.channels i ≡ s.online.channels i)
    × (t.online.online_users ≡ s.online.online_users)

abbrev pub reply_all : ℕ → List Frame → AppState → AppState
reply_all tx [] s = s
reply_all tx (m ∷ ms) s = reply_all tx ms (reply tx m s)

reply-Sends :
    (tx : ℕ) (m : Frame) (s : AppState)
    → (s.online.channels tx).open_ ≡ true
    → Sends tx (m ∷ []) s (reply tx m s)
unfolding send
reply-Sends tx m s o = (ground arith, ground arith, λ i ne. ground arith, ground arith)

behind-[] : (c : Channel) → behind c [] ≡ c
behind-[] c = ap (λ q. record c { queue = q }) (append-nil c.queue)

pub Sends-trans :
    (tx : ℕ) (xs ys : List Frame) (s t u : AppState)
    → Sends tx xs s t
    → Sends tx ys t u
    → Sends tx (xs ++ ys) s u
Sends-trans tx xs ys s t u (p, q, r, w) (p', q', r', w') = (
  p' ∙ p,
  q'
      ∙ ap (λ c. behind c ys) q
      ∙ ap (λ l. record (s.online.channels tx) { queue = l })
          (append_assoc (s.online.channels tx).queue xs ys),
  λ i ne. r' i ne ∙ r i ne,
  w' ∙ w,
)

pub reply_all-Sends :
    (tx : ℕ) (ms : List Frame) (s : AppState)
    → (s.online.channels tx).open_ ≡ true
    → Sends tx ms s (reply_all tx ms s)
reply_all-Sends tx [] s o = (refl, sym (behind-[] (s.online.channels tx)), λ i ne. refl, refl)
reply_all-Sends tx (m ∷ ms) s o =
    let one = reply-Sends tx m s o in
    Sends-trans tx (m ∷ []) ms s (reply tx m s) (reply_all tx ms (reply tx m s)) one
      (reply_all-Sends tx ms (reply tx m s) (ap (λ c. c.open_) one.1 ∙ o))
