-- ===== src/Router/Server.antt =====
-- The whole server as it runs: src/router.rs over src/state.rs and src/dao.rs. A step is a request, a
-- command on a WebSocket, the messages for a new connection, whatever the tasks of the connections
-- do, or a new schedule of the statements that will fail.
pub mod Keeps
pub mod Commands
pub mod Authors
pub mod Replies
pub mod Accounts
pub mod Handlers
pub mod Requests
pub mod Integrity
pub mod Refinement
pub mod Writes
use myx_im.Base.{ℕ, String, Bool, Option, List, []}
use myx_im.Model.{Uuid, Time}
use myx_im.Db.{Db}
use myx_im.Db.Statement.{healthy}
use myx_im.State.{Online, new}
use myx_im.Jwt.{Config, Crypto}
use myx_im.Router.App.{AppState, Json}
use myx_im.Router.Ws.{handle_biz_msg}
use myx_im.Router.Sync.{sync}
use myx_im.Router.Routes.{Request}
use myx_im.Router.Serve.{Extract, Env, serve}

-- The tables of init.sql before the first row.
abbrev pub empty_db : Db
empty_db = record {
  users = [];
  chat_messages = [];
  next_chat_id = 1;
  read_cursors = [];
  groups = [];
  members = [];
  group_messages = [];
  next_group_msg_id = 1;
  group_read_cursors = [];
  friends = [];
}

abbrev pub started : AppState
started = record { pool = healthy empty_db; online = new }

module _ {R V : Type 0} (extract : Extract R) (json : Json V) (crypto : Crypto) (config : Config)
    (ilike collates : String → String → Bool) where
  pub data Happens (s : AppState) : AppState → Type 0 where
    serves :
        (env : Env) (req : Request R)
        → Happens s (serve extract json crypto config ilike collates env req s).1
    receives :
        (uid : Uuid) (tx : ℕ) (now : Time) (send_time : ℕ) (text : String)
        → Happens s (handle_biz_msg json uid tx now send_time text s)
    syncs : (uid : Uuid) (tx : ℕ) → Happens s (sync json uid tx s)
    connections : (online : Online) → Happens s (record s { online = online })
    falters :
        (faults : List (Option String))
        → Happens s (record s { pool = record s.pool { faults = faults } })

  pub data Runs (s : AppState) : AppState → Type 0 where
    here : Runs s s
    then_next : {t u : AppState} → Runs s t → Happens t u → Runs s u
