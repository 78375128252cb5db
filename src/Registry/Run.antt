-- ===== src/Registry/Run.antt =====
-- The calls that write to the registry, and what a sequence of them makes of the tables. A call that
-- fails leaves them as they were: every operation is one transaction.
use pgoverlay.Base.{ℕ, List, [], ◌∷◌, String}
use pgoverlay.Registry.Types.{SourceState, BranchState, Result, Source, Branch, Layer, Db}
use pgoverlay.Registry.Sql.{Call, committed}
use pgoverlay.Registry.Branches.{create_branch, transition_branch, mark_branch_ready}
use pgoverlay.Registry.Updates.{
  Platform, set_branch_password, set_branch_container, touch_branch, note_branch,
  set_branch_pending_volume, update_branch_endpoint, update_branch_endpoint_noted,
  fail_ready_branch, fail_stuck_branch,
}
use pgoverlay.Registry.Sources.{
  create_source, delete_failed_sources, set_source_state, set_source_pending_volume,
  bump_source_generation, touch_source, fail_stuck_source, set_mask_scripts, delete_source,
}
use pgoverlay.Registry.Layers.{Instance, create_layer, delete_layer, commit_freeze}

pub data Op : Type 0 where
  branch_create : Branch → Op
  branch_transition : String → BranchState → String → Op
  branch_ready : String → String → String → ℕ → Op
  branch_password : String → String → Op
  branch_container : String → String → Op
  branch_touch : String → Op
  branch_note : String → String → Op
  branch_pending : String → String → Op
  branch_endpoint : String → String → String → String → ℕ → Op
  branch_endpoint_noted : String → String → String → String → ℕ → String → Op
  branch_fail_ready : String → String → String → Op
  branch_fail_stuck : String → String → String → Op
  source_create : Source → Op
  source_clear_failed : String → Op
  source_state : String → SourceState → String → Op
  source_pending : String → String → Op
  source_bump : String → String → Op
  source_touch : String → Op
  source_fail_stuck : String → String → String → Op
  source_scripts : String → List (String × String) → Op
  source_delete : String → Op
  layer_create : Layer → Op
  layer_delete : String → Op
  freeze : String → String → String → Instance → String → Op

module _ (p : Platform) (encrypt : String → Result String) where
  unfoldable pub apply : Call → Op → Db → Db
  apply c (branch_create b) db = committed db (create_branch c b db)
  apply c (branch_transition id to reason) db = committed db (transition_branch c id to reason db)
  apply c (branch_ready id container host port) db =
      committed db (mark_branch_ready c id container host port db)
  apply c (branch_password id password) db =
      committed db (set_branch_password encrypt c id password db)
  apply c (branch_container id container) db = committed db (set_branch_container c id container db)
  apply c (branch_touch id) db = committed db (touch_branch c id db)
  apply c (branch_note id reason) db = committed db (note_branch c id reason db)
  apply c (branch_pending id volume) db = committed db (set_branch_pending_volume id volume db)
  apply c (branch_endpoint id from container host port) db =
      committed db (update_branch_endpoint id from container host port db)
  apply c (branch_endpoint_noted id from container host port reason) db =
      committed db (update_branch_endpoint_noted c id from container host port reason db)
  apply c (branch_fail_ready id container reason) db =
      committed db (fail_ready_branch c id container reason db)
  apply c (branch_fail_stuck id before reason) db =
      committed db (fail_stuck_branch p c id before reason db)
  apply c (source_create s) db = committed db (create_source p c s db)
  apply c (source_clear_failed name) db = committed db (delete_failed_sources name db)
  apply c (source_state id to reason) db = committed db (set_source_state c id to reason db)
  apply c (source_pending id volume) db = committed db (set_source_pending_volume id volume db)
  apply c (source_bump id volume) db = committed db (bump_source_generation c id volume db)
  apply c (source_touch id) db = committed db (touch_source c id db)
  apply c (source_fail_stuck id before reason) db =
      committed db (fail_stuck_source p c id before reason db)
  apply c (source_scripts id scripts) db = committed db (set_mask_scripts id scripts db)
  apply c (source_delete id) db = committed db (delete_source c id db)
  apply c (layer_create l) db = committed db (create_layer c l db)
  apply c (layer_delete id) db = committed db (delete_layer id db)
  apply c (freeze parent child volume fresh reason) db =
      committed db (commit_freeze c parent child volume fresh reason db)

  unfoldable pub run : Db → List (Call × Op) → Db
  run db [] = db
  run db ((c, op) ∷ rest) = run (apply c op db) rest
