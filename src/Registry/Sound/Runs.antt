-- ===== src/Registry/Sound/Runs.antt =====
-- Every call, successful or not, keeps the registry sound, so every run of calls does.
use pgoverlay.Base.{refl, List, [], ◌∷◌, String, count_where, arith}
use pgoverlay.Registry.Types.{Result, Db, empty_db}
use pgoverlay.Registry.Sql.{Call}
use pgoverlay.Registry.Branches.{transition_branch, mark_branch_ready}
use pgoverlay.Registry.Updates.{Platform}
use pgoverlay.Registry.Sources.{delete_failed_sources}
use pgoverlay.Registry.Run.{
  Op, branch_create, branch_transition, branch_ready, branch_password, branch_container,
  branch_touch, branch_note, branch_pending, branch_endpoint, branch_endpoint_noted,
  branch_fail_ready, branch_fail_stuck, source_create, source_clear_failed, source_state,
  source_pending, source_bump, source_touch, source_fail_stuck, source_scripts, source_delete,
  layer_create, layer_delete, freeze, apply, run,
}
use pgoverlay.Registry.Sound.Keys.{IsSound}
use pgoverlay.Registry.Sound.Branches.{
  transition_branch_set-IsSound, set_branch_password-IsSound, set_branch_container-IsSound,
  touch_branch-IsSound, note_branch-IsSound, set_branch_pending_volume-IsSound,
}
use pgoverlay.Registry.Sound.Repairs.{
  update_branch_endpoint-IsSound, update_branch_endpoint_noted-IsSound, fail_ready_branch-IsSound,
  fail_stuck_branch-IsSound,
}
use pgoverlay.Registry.Sound.Creation.{create_branch-IsSound}
use pgoverlay.Registry.Sound.Sources.{
  touch_source-IsSound, set_source_pending_volume-IsSound, set_source_state-IsSound,
  bump_source_generation-IsSound, fail_stuck_source-IsSound, set_mask_scripts-IsSound,
  delete_failed_rows-IsSound, create_source-IsSound, delete_source-IsSound,
}
use pgoverlay.Registry.Sound.Layers.{
  create_layer-IsSound, delete_layer-IsSound, commit_freeze-IsSound,
}

module _ (p : Platform) (encrypt : String → Result String) where
  pub apply-IsSound :
      (c : Call) (op : Op) (db : Db) → IsSound db → IsSound (apply p encrypt c op db)
  unfolding apply transition_branch mark_branch_ready delete_failed_sources
  apply-IsSound c (branch_create b) db s = create_branch-IsSound c b db s
  apply-IsSound c (branch_transition id to reason) db s =
      transition_branch_set-IsSound c id to reason _ db (λ b. (refl, refl, refl)) s
  apply-IsSound c (branch_ready id container host port) db s =
      transition_branch_set-IsSound c id _ _ _ db (λ b. (refl, refl, refl)) s
  apply-IsSound c (branch_password id password) db s =
      set_branch_password-IsSound c id db s encrypt password
  apply-IsSound c (branch_container id container) db s =
      set_branch_container-IsSound c id db s container
  apply-IsSound c (branch_touch id) db s = touch_branch-IsSound c id db s
  apply-IsSound c (branch_note id reason) db s = note_branch-IsSound c id db s reason
  apply-IsSound c (branch_pending id volume) db s =
      set_branch_pending_volume-IsSound c id db s volume
  apply-IsSound c (branch_endpoint id from container host port) db s =
      update_branch_endpoint-IsSound c id from db s container host port
  apply-IsSound c (branch_endpoint_noted id from container host port reason) db s =
      update_branch_endpoint_noted-IsSound c id from db s container host port reason
  apply-IsSound c (branch_fail_ready id container reason) db s =
      fail_ready_branch-IsSound c id container db s reason
  apply-IsSound c (branch_fail_stuck id before reason) db s =
      fail_stuck_branch-IsSound p c id before reason db s
  apply-IsSound c (source_create x) db s = create_source-IsSound c db s p x
  apply-IsSound c (source_clear_failed name) db s = delete_failed_rows-IsSound c db s name
  apply-IsSound c (source_state id to reason) db s = set_source_state-IsSound c id db s to reason
  apply-IsSound c (source_pending id volume) db s =
      set_source_pending_volume-IsSound c id db s volume
  apply-IsSound c (source_bump id volume) db s = bump_source_generation-IsSound c id db s volume
  apply-IsSound c (source_touch id) db s = touch_source-IsSound c id db s
  apply-IsSound c (source_fail_stuck id before reason) db s =
      fail_stuck_source-IsSound c id db s p before reason
  apply-IsSound c (source_scripts id scripts) db s = set_mask_scripts-IsSound id scripts db s
  apply-IsSound c (source_delete id) db s = delete_source-IsSound c id db s
  apply-IsSound c (layer_create l) db s = create_layer-IsSound c db s l
  apply-IsSound c (layer_delete id) db s = delete_layer-IsSound c db s id
  apply-IsSound c (freeze parent child volume fresh reason) db s =
      commit_freeze-IsSound c db s child volume reason fresh parent

  -- From a sound registry every run of calls, failed ones included, leaves it sound: ids are unique,
  -- live names are unique, each branch's source exists, and the audit trail is a legal history that
  -- records the state each branch is in.
  pub run-IsSound :
      (db : Db) (calls : List (Call × Op)) → IsSound db → IsSound (run p encrypt db calls)
  unfolding run
  run-IsSound db [] s = s
  run-IsSound db ((c, op) ∷ rest) s =
      run-IsSound (apply p encrypt c op db) rest (apply-IsSound c op db s)

pub empty_db-IsSound : IsSound empty_db
unfolding count_where
empty_db-IsSound = record {
  ids = λ i. omega arith;
  names = λ n. omega arith;
  states = tt;
  trail = tt;
  homes = tt;
}
