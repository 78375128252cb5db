-- ===== src/Registry/Forest/Kept.antt =====
-- Every call keeps the layers a forest.
use mathlib.Core.Path.{subst}
use pgoverlay.Base.{ℕ, Bool, refl, ◌≡◌, sym, Option, String, List, [], ◌∷◌, arith}
use pgoverlay.Registry.Types.{Layer, Branch, BranchState, SourceState, Source, Result, ok, err, Db}
use pgoverlay.Registry.Sql.{Call, committed, journal, update_branches, update_state, insert_branch}
use pgoverlay.Registry.Branches.{
  create_branch, swap_state, transition_branch_set, transition_branch, mark_branch_ready,
}
use pgoverlay.Registry.Updates.{
  Platform, update_or_missing, store_password, set_branch_password, set_branch_container,
  touch_branch, note_found, note_branch, set_branch_pending_volume, update_branch_endpoint,
  update_branch_endpoint_noted, fail_ready_branch, fail_stuck_found, fail_stuck_branch,
}
use pgoverlay.Registry.Sources.{
  delete_failed_rows, delete_failed_sources, insert_source, create_source, source_from,
  set_source_state, set_source_pending_volume, bumped, bump_source_generation, touch_source,
  fail_stuck_source, set_mask_scripts, delete_source,
}
use pgoverlay.Registry.Layers.{commit_freeze}
use pgoverlay.Registry.Run.{
  Op, branch_create, branch_transition, branch_ready, branch_password, branch_container,
  branch_touch, branch_note, branch_pending, branch_endpoint, branch_endpoint_noted,
  branch_fail_ready, branch_fail_stuck, source_create, source_clear_failed, source_state,
  source_pending, source_bump, source_touch, source_fail_stuck, source_scripts, source_delete,
  layer_create, layer_delete, freeze, apply, run,
}
use pgoverlay.Registry.Forest.{IsForest}
use pgoverlay.Registry.Forest.Writes.{
  create_layer-IsForest, delete_layer-IsForest, delete_found-IsForest, freeze_from-IsForest,
}

abbrev SameLayers : {A : Type 0} → Db → Result (A × Db) → Type 0
SameLayers db r = (committed db r).layers ≡ db.layers

module _ (c : Call) (db : Db) where
  create_branch_layers : (b : Branch) → SameLayers db (create_branch c b db)
  unfolding create_branch insert_branch journal
  create_branch_layers b = ground arith

  transition_layers :
      (id : String) (to : BranchState) (reason : String) (set : Branch → Branch)
      → SameLayers db (transition_branch_set c id to reason set db)
  unfolding transition_branch_set swap_state journal update_state update_branches
  transition_layers id to reason set = ground arith

  create_source_layers : (p : Platform) (x : Source) → SameLayers db (create_source p c x db)
  unfolding create_source insert_source delete_failed_rows journal
  create_source_layers p x = ground arith

  update_or_missing_layers :
      (q : Branch → Bool) (g : Branch → Branch) → SameLayers db (update_or_missing q g db)
  unfolding update_or_missing update_branches
  update_or_missing_layers q g = ground arith

  store_password_layers :
      (id : String) (r : Result String) → SameLayers db (store_password c id r db)
  unfolding store_password update_or_missing update_branches
  store_password_layers id (ok v) = ground arith
  store_password_layers id (err e) = refl

  note_found_layers :
      (id reason : String) (o : Option Branch) → SameLayers db (note_found c id reason o db)
  unfolding note_found journal update_branches
  note_found_layers id reason o = ground arith

  endpoint_noted_layers :
      (id from container host : String) (port : ℕ) (reason : String)
      → SameLayers db (update_branch_endpoint_noted c id from container host port reason db)
  unfolding update_branch_endpoint_noted journal update_branches
  endpoint_noted_layers id from container host port reason = ground arith

  fail_ready_layers :
      (id container reason : String) → SameLayers db (fail_ready_branch c id container reason db)
  unfolding fail_ready_branch journal update_state update_branches
  fail_ready_layers id container reason = ground arith

  fail_stuck_layers :
      (id before reason : String) (o : Option Branch)
      → SameLayers db (fail_stuck_found c id before reason o db)
  unfolding fail_stuck_found journal update_state update_branches
  fail_stuck_layers id before reason o = ground arith

  source_from_layers :
      (id : String) (to : SourceState) (reason : String) (o : Option Source)
      → SameLayers db (source_from c id to reason o db)
  unfolding source_from journal
  source_from_layers id to reason o = ground arith

  delete_failed_layers : (name : String) → SameLayers db (delete_failed_rows name db)
  unfolding delete_failed_rows
  delete_failed_layers name = ground arith

  source_pending_layers :
      (id volume : String) → SameLayers db (set_source_pending_volume id volume db)
  unfolding set_source_pending_volume
  source_pending_layers id volume = ground arith

  source_bump_layers : (id volume : String) → SameLayers db (bump_source_generation c id volume db)
  unfolding bump_source_generation bumped journal
  source_bump_layers id volume = ground arith

  source_fail_stuck_layers :
      (p : Platform) (id before reason : String)
      → SameLayers db (fail_stuck_source p c id before reason db)
  unfolding fail_stuck_source journal
  source_fail_stuck_layers p id before reason = ground arith

module _ (p : Platform) (encrypt : String → Result String) where
  unchanged : {ls ls' : List Layer} → ls' ≡ ls → IsForest ls → IsForest ls'
  unchanged e f = subst IsForest (sym e) f

  apply-IsForest :
      (c : Call) (op : Op) (db : Db)
      → IsForest db.layers
      → IsForest (apply p encrypt c op db).layers
  unfolding apply transition_branch mark_branch_ready set_branch_password set_branch_container
      touch_branch note_branch set_branch_pending_volume update_branch_endpoint fail_stuck_branch
      update_branches delete_failed_sources set_source_state touch_source set_mask_scripts
      delete_source commit_freeze
  apply-IsForest c (branch_create b) db f = unchanged (create_branch_layers c db b) f
  apply-IsForest c (branch_transition id to reason) db f =
      unchanged (transition_layers c db id to reason _) f
  apply-IsForest c (branch_ready id container host port) db f =
      unchanged (transition_layers c db id _ _ _) f
  apply-IsForest c (branch_password id password) db f =
      unchanged (store_password_layers c db id (encrypt password)) f
  apply-IsForest c (branch_container id container) db f = f
  apply-IsForest c (branch_touch id) db f = f
  apply-IsForest c (branch_note id reason) db f = unchanged (note_found_layers c db id reason _) f
  apply-IsForest c (branch_pending id volume) db f = unchanged (update_or_missing_layers c db _ _) f
  apply-IsForest c (branch_endpoint id from container host port) db f = f
  apply-IsForest c (branch_endpoint_noted id from container host port reason) db f =
      unchanged (endpoint_noted_layers c db id from container host port reason) f
  apply-IsForest c (branch_fail_ready id container reason) db f =
      unchanged (fail_ready_layers c db id container reason) f
  apply-IsForest c (branch_fail_stuck id before reason) db f =
      unchanged (fail_stuck_layers c db id _ reason _) f
  apply-IsForest c (source_create x) db f = unchanged (create_source_layers c db p x) f
  apply-IsForest c (source_clear_failed name) db f = unchanged (delete_failed_layers c db name) f
  apply-IsForest c (source_state id to reason) db f =
      unchanged (source_from_layers c db id to reason _) f
  apply-IsForest c (source_pending id volume) db f =
      unchanged (source_pending_layers c db id volume) f
  apply-IsForest c (source_bump id volume) db f = unchanged (source_bump_layers c db id volume) f
  apply-IsForest c (source_touch id) db f = f
  apply-IsForest c (source_fail_stuck id before reason) db f =
      unchanged (source_fail_stuck_layers c db p id before reason) f
  apply-IsForest c (source_scripts id scripts) db f = f
  apply-IsForest c (source_delete id) db f = delete_found-IsForest c db f id _
  apply-IsForest c (layer_create l) db f = create_layer-IsForest c db f l
  apply-IsForest c (layer_delete id) db f = delete_layer-IsForest c db f id
  apply-IsForest c (freeze parent child volume fresh reason) db f =
      freeze_from-IsForest c db f _ child volume fresh reason

  -- Whatever calls run on a registry whose layers form a forest, they form one afterwards: ids are
  -- unique, and each layer's parent is there and was frozen before it.
  pub run-IsForest :
      (db : Db) (calls : List (Call × Op))
      → IsForest db.layers
      → IsForest (run p encrypt db calls).layers
  unfolding run
  run-IsForest db [] f = f
  run-IsForest db ((c, op) ∷ rest) f =
      run-IsForest (apply p encrypt c op db) rest (apply-IsForest c op db f)
