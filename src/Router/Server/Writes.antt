-- ===== src/Router/Server/Writes.antt =====
-- The server as it runs changes its database by the statements of src/dao.rs and by nothing else.
use myx_im.Base.{String, Bool}
use myx_im.Jwt.{Config, Crypto}
use myx_im.Dao.Keeps.Groups.{RowsKeep-DaoKeeps}
use myx_im.Dao.Writes.{Writes, here, Writes-RowsKeep}
use myx_im.Router.App.{AppState, Json}
use myx_im.Router.Serve.{Extract}
use myx_im.Router.Server.{Runs}
use myx_im.Router.Server.Requests.{Runs_keeps}

module _ {R V : Type 0} (extract : Extract R) (json : Json V) (crypto : Crypto) (config : Config)
    (ilike collates : String → String → Bool) where
  -- Whatever a run of the server does, requests, commands, connections and failing statements, it
  -- takes the database from its first state to its last by a sequence of the writing statements of
  -- src/dao.rs, with add_friend as one of them.
  pub Runs-Writes :
      {s t : AppState}
      → Runs extract json crypto config ilike collates s t
      → Writes s.pool.db t.pool.db
  Runs-Writes {s} r =
      Runs_keeps extract json crypto config ilike collates (Writes s.pool.db)
        (RowsKeep-DaoKeeps (Writes s.pool.db) (Writes-RowsKeep s.pool.db)) here r
