-- ===== src/Tests/Sockets.antt =====
-- Two connections at work: Alice (1) on connection 0 and Bob (2) on connection 1.
use myx_im.Base.{[], ◌∷◌, ◌≡◌, refl}
use myx_im.State.{Frame, get, send_to_user, insert_online_user, remove}
use myx_im.Router.Socket.{
  Server, start, connect, Reach, here, next_step, connects, notifies, forwards,
}
use myx_im.Router.Socket.Order.{stream, handed, stream-handed}
use mathlib.Core.List.{Sublistᴰ}
use myx_im.Router.Socket.Isolation.{IsSound, Reach-IsSound}

abbrev pub both : Server
both = connect 2 (connect 1 start)

pub both-Reach : Reach start both
both-Reach = next_step (next_step here (connects start 1)) (connects (connect 1 start) 2)

abbrev note : Frame
note = record { cmd = "typing"; seq = 1; body = "{}" }

Reach-IsSound_example : IsSound both
Reach-IsSound_example = Reach-IsSound both-Reach

-- Bob is sent a note, which is written to him, and then a second one, which waits.
abbrev noted : (s : Server) × Reach start s
unfolding send_to_user insert_online_user get remove
noted =
    let told = next_step both-Reach (notifies both 2 note) in
    let read = next_step told (forwards _ 1 note [] refl) in (_, next_step read (notifies _ 2 note))

both_notes : stream 1 noted.0 ≡ note ∷ note ∷ []
unfolding send_to_user insert_online_user get remove
both_notes = refl

stream-handed_example : Sublistᴰ (stream 1 noted.0) (handed 1 noted.1)
stream-handed_example = stream-handed 1 noted.1
