-- ===== src/Dao/Writes/Tables.antt =====
-- src/dao.rs: the statements of any operations, interleaved, and the tables of init.sql.
use myx_im.Db.{Db}
use myx_im.Dao.Integrity.{IsIntact}
use myx_im.Dao.Integrity.Operations.{IsIntact-RowsKeep}
use myx_im.Dao.Graph.{IsGraph}
use myx_im.Dao.Graph.Operations.{IsGraph-RowsKeep}
use myx_im.Dao.Writes.{Writes, Writes_keep}

-- From tables that meet the keys and references of init.sql and represent a graph to which a course
-- of its changes leads from nobody, any writing statements of src/dao.rs, of whichever operations, in
-- whatever order and with whatever arguments, lead to tables that do so too; add_friend counts as one
-- statement.
pub Writes-IsIntact : {c d : Db} → IsIntact c → IsGraph c → Writes c d → IsIntact d × IsGraph d
Writes-IsIntact v g w =
    (Writes_keep IsIntact IsIntact-RowsKeep v w, Writes_keep IsGraph IsGraph-RowsKeep g w)
