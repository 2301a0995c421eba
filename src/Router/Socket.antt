-- ===== src/Router/Socket.antt =====
-- src/router.rs, handle_im_websocket: the connections as they come, forward, fail and end. Each
-- step is one action of one task on what the tasks share; they may interleave in any order.
pub mod Isolation
pub mod Drain
pub mod Order
use myx_im.Base.{ℕ, suc, ◌<◌, ◌≡◌, true, false, some, List, [], ◌∷◌, ◌++◌}
use myx_im.Model.{Uuid}
use myx_im.State.{
  Online, OnlineUser, Frame, Channel, get, after_send, update, send, send_to_user,
  insert_online_user, remove_online_user, new,
}

-- The connections are numbered; the channel and the flag of one have its number. `owner` is the
-- `user_id` of the connection, and `written` what its client has been sent.
pub record Server : Type 0 where
  pub online : Online
  pub next : ℕ
  pub owner : ℕ → Uuid
  pub written : ℕ → List Frame

abbrev pub start : Server
start = record { online = new; next = 0; owner = λ i. 0; written = λ i. [] }

abbrev pub fresh_channel : Channel
fresh_channel = record { open_ = true; queue = [] }

-- A new connection: its channel and flag, and its entry in the map.
abbrev pub opened : ℕ → Online → Online
opened i o = record o {
  channels = update o.channels i fresh_channel;
  flags = update o.flags i true;
}

abbrev pub connect : Uuid → Server → Server
connect uid s = record s {
  online = insert_online_user uid s.next s.next (opened s.next s.online);
  next = suc s.next;
  owner = update s.owner s.next uid;
}

-- `alive.store(false, …)`
abbrev pub unflag : ℕ → Server → Server
unflag i s = record s { online = record s.online { flags = update s.online.flags i false } }

-- The forwarding task takes a frame out of the channel.
abbrev pub taken : ℕ → List Frame → Server → Server
taken i rest s = record s {
  online = record s.online {
    channels = update s.online.channels i (record { open_ = true; queue = rest });
  };
}

-- `rx` is dropped.
abbrev pub dropped : ℕ → Server → Server
dropped i s = record s {
  online = record s.online {
    channels = update s.online.channels i (record { open_ = false; queue = [] });
  };
}

pub data Step : Server → Server → Type 0 where
  -- A client connects with a valid token.
  connects : (s : Server) (uid : Uuid) → Step s (connect uid s)
  -- A handler sends to a user, or on the connection's own channel.
  notifies :
      (s : Server) (uid : Uuid) (msg : Frame)
      → Step s (record s { online = (send_to_user uid msg s.online).1 })
  -- The same, where the connection goes down between the two halves of `send_to_user`: the flag was
  -- set when it was looked at, and what the tasks of the connection did before the send shows in `s`.
  -- The map is locked from the one to the other.
  notifies_late :
      (s : Server) (uid : Uuid) (msg : Frame) (o : OnlineUser)
      → get uid s.online.online_users ≡ some o
      → Step s (record s { online = (after_send uid o (send o.tx msg s.online)).1 })
  replies :
      (s : Server) (i : ℕ) (msg : Frame)
      → i < s.next
      → Step s (record s { online = (send i msg s.online).1 })
  -- The forwarding task writes a frame to the client.
  forwards :
      (s : Server) (i : ℕ) (msg : Frame) (rest : List Frame)
      → s.online.channels i ≡ record { open_ = true; queue = msg ∷ rest }
      → Step s (record (taken i rest s) { written = update s.written i (s.written i ++ msg ∷ []) })
  -- The write fails: the frame is lost, and the flag is cleared.
  fails :
      (s : Server) (i : ℕ) (msg : Frame) (rest : List Frame)
      → s.online.channels i ≡ record { open_ = true; queue = msg ∷ rest }
      → Step s (unflag i (taken i rest s))
  -- The main loop of the connection ends.
  ends : (s : Server) (i : ℕ) → Step s (unflag i s)
  -- The forwarding task has ended: its receiver is dropped after it has cleared the flag.
  drops : (s : Server) (i : ℕ) → s.online.flags i ≡ false → Step s (dropped i s)
  -- A logout removes the user.
  removes :
      (s : Server) (uid : Uuid) → Step s (record s { online = remove_online_user uid s.online })

pub data Reach (s : Server) : Server → Type 0 where
  here : Reach s s
  next_step : {t u : Server} → Reach s t → Step t u → Reach s u
