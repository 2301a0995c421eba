-- ===== src/Router/Server/Refinement.antt =====
-- The server from its start refines the graph of its users, groups and friends.
use myx_im.Base.{refl, String, Bool}
use myx_im.Jwt.{Config, Crypto}
use myx_im.Dao.Graph.{Graph, nobody, Becomes, here, Represents, IsGraph}
use myx_im.Dao.Graph.Proper.{IsProper, Becomes-IsProper}
use myx_im.Dao.Graph.Operations.{IsGraph-DaoKeeps}
use myx_im.Router.App.{AppState, Json}
use myx_im.Router.Serve.{Extract}
use myx_im.Router.Server.{Runs, started}
use myx_im.Router.Server.Requests.{Runs_keeps}

pub started-IsGraph : IsGraph started.pool.db
started-IsGraph = (
  nobody,
  here,
  record {
    users = λ u. refl;
    groups = λ g. refl;
    owners = λ u g. refl;
    members = λ g u. refl;
    friends = λ a b. refl;
  },
)

module _ {R V : Type 0} (extract : Extract R) (json : Json V) (crypto : Crypto) (config : Config)
    (ilike collates : String → String → Bool) where
  -- In every state of a run of the server from its empty database, whatever is requested, whichever
  -- statements fail and whatever the connections do, the tables represent a graph of users, groups,
  -- members and friends to which a course of its changes leads from nobody; in this graph friends are
  -- users and friends of each other, and members and owners are users of groups that are there.
  pub Runs-Represents :
      {s : AppState}
      → Runs extract json crypto config ilike collates started s
      → (G : Graph) × Becomes nobody G × Represents G s.pool.db × IsProper G
  Runs-Represents r =
      let (G, b, v) =
        Runs_keeps extract json crypto config ilike collates IsGraph IsGraph-DaoKeeps
          started-IsGraph r in
      (G, b, v, Becomes-IsProper b)
