-- ===== src/Registry/Tests.antt =====
-- The registry's theorems at work: a run that makes a source and a branch, and a parent, its child and
-- a layer at a freeze.
use pgoverlay.Base.{
  ◌⊎◌, suc, true, false, ◌≡◌, ◌≢◌, refl, Option, none, some, List, [], ◌∷◌, String, All, length,
  exists_where, find_where, delete_where, count_where, update_where, select_where,
}
use pgoverlay.Registry.Types.{
  legal_branch_transition, err, illegal_transition, not_found, branch, ready, resetting, destroying,
  destroyed, creating, seeding, source_ready, of_branch, Source, Branch, Layer, Db, empty_db,
  Result, ok,
}
use pgoverlay.Registry.Sql.{
  Call, find_branch, insert_branch, journal, update_state, update_branches, forget_password,
}
use pgoverlay.Registry.Updates.{Platform}
use pgoverlay.Registry.Branches.{
  create_branch, transition_branch, transition_branch_set, transition_from, swap_state,
  mark_branch_ready,
}
use pgoverlay.Registry.Sources.{
  create_source, insert_source, delete_failed_rows, set_source_state, source_from, find_source,
}
use pgoverlay.Registry.Layers.{
  chain, walk, layer_chain, Instance, frozen_layer, out_of_fuel, find_layer,
}
use pgoverlay.Registry.Queries.{volume_name_used, live_volume_set}
use pgoverlay.Registry.Run.{
  Op, apply, run, branch_create, branch_transition, branch_ready, source_create, source_state,
}
use pgoverlay.Registry.Outcome.{transition_branch_set_lem}
use pgoverlay.Registry.Sound.{IsSound}
use pgoverlay.Registry.Sound.Runs.{run-IsSound, empty_db-IsSound}
use pgoverlay.Registry.Lifecycle.{Way, branch_follows_machine, destroyed_is_final}
use pgoverlay.Registry.Growth.{Extends, audit_trail_grows}
use pgoverlay.Registry.Forest.{IsForest, walk_total, walk_ends}
use pgoverlay.Registry.Forest.Kept.{run-IsForest}
use pgoverlay.Registry.Forest.Freeze.{after, parent_after}
use pgoverlay.Registry.Volumes.{IsKept, live_volumes_used, live_branch_volumes-IsKept}

abbrev platform : Platform
platform = record {
  Time = String;
  parse_time = λ s. some s;
  time_string = λ t. t;
  image_ref_matches = λ s. true;
}

abbrev in_clear : String → Result String
in_clear = λ v. ok v

abbrev call : String → Call
call id = record { ctx = none; now = "2026-01-01"; new_id = id }

abbrev main_source : Source
main_source = record {
  id = "";
  name = "main";
  pg_version = "16";
  volume = "vol-s1";
  conn_host = "db";
  conn_port = 5432;
  conn_user = "app";
  conn_db = "app";
  network = "net";
  seed_via = "dump";
  dump_schemas = "";
  image = "";
  generation = 0;
  state = seeding;
  pending_volume = "";
  created_at = "";
  updated_at = "";
}

abbrev dev_branch : Branch
dev_branch = record {
  id = "";
  name = "dev";
  source_id = "s1";
  container_id = "";
  rw_volume = "rw-1";
  source_volume = "vol-s1";
  expires_at = "";
  host = "";
  base_layer_id = none;
  parent_branch_name = "";
  password = "";
  pending_volume = "";
  port = 0;
  state = creating;
  created_at = "";
  updated_at = "";
}

abbrev setup : List (Call × Op)
setup =
    (call "s1", source_create main_source)
    ∷ (call "x", source_state "s1" source_ready "seeded")
    ∷ (call "b1", branch_create dev_branch)
    ∷ []

abbrev start : Db
start = run platform in_clear empty_db setup

abbrev ends : List (Call × Op)
ends =
    (call "x", branch_ready "b1" "c1" "h" 7000)
    ∷ (call "x", branch_transition "b1" destroying "destroy")
    ∷ (call "x", branch_transition "b1" destroyed "gone")
    ∷ []

abbrev revived : List (Call × Op)
revived = (call "x", branch_transition "b1" ready "again") ∷ []

abbrev branch_or : Option Branch → Branch
branch_or none = dev_branch
branch_or (some b) = b

abbrev b1 : Db → Branch
b1 db = branch_or (find_branch "b1" db)

abbrev end : Db
end = run platform in_clear start ends

start-IsSound : IsSound start
start-IsSound = run-IsSound platform in_clear empty_db setup empty_db-IsSound

start_row : find_branch "b1" start ≡ some (b1 start)
unfolding run apply create_source insert_source delete_failed_rows set_source_state source_from
    find_source create_branch insert_branch journal exists_where find_where delete_where count_where
    update_where find_branch transition_branch transition_branch_set transition_from swap_state
    mark_branch_ready update_state update_branches forget_password
start_row = refl

end_row : find_branch "b1" end ≡ some (b1 end)
unfolding run apply create_source insert_source delete_failed_rows set_source_state source_from
    find_source create_branch insert_branch journal exists_where find_where delete_where count_where
    update_where find_branch transition_branch transition_branch_set transition_from swap_state
    mark_branch_ready update_state update_branches forget_password
end_row = refl

end_state : (b1 end).state ≡ destroyed
unfolding run apply create_source insert_source delete_failed_rows set_source_state source_from
    find_source create_branch insert_branch journal exists_where find_where delete_where count_where
    update_where find_branch transition_branch transition_branch_set transition_from swap_state
    mark_branch_ready update_state update_branches forget_password
end_state = refl

revived_row :
    find_branch "b1" (run platform in_clear end revived)
    ≡ some (b1 (run platform in_clear end revived))
unfolding run apply create_source insert_source delete_failed_rows set_source_state source_from
    find_source create_branch insert_branch journal exists_where find_where delete_where count_where
    update_where find_branch transition_branch transition_branch_set transition_from swap_state
    mark_branch_ready update_state update_branches forget_password
revived_row = refl

run-IsSound_example : IsSound end
run-IsSound_example = run-IsSound platform in_clear start ends start-IsSound

branch_follows_machine_example : Way (of_branch (b1 start).state) (of_branch (b1 end).state)
branch_follows_machine_example =
    branch_follows_machine platform in_clear "b1" start ends (b1 start) (b1 end)
      (refl, (refl, (refl, tt))) start-IsSound start_row end_row

destroyed_is_final_example : (b1 (run platform in_clear end revived)).state ≡ destroyed
destroyed_is_final_example =
    destroyed_is_final platform in_clear "b1" end revived (b1 end)
      (b1 (run platform in_clear end revived)) (refl, tt) run-IsSound_example end_row end_state
      revived_row

audit_trail_grows_example :
    Extends
      (call "b1")
      empty_db.transitions
      (apply platform in_clear (call "b1") (source_create main_source) empty_db).transitions
audit_trail_grows_example =
    audit_trail_grows platform in_clear (call "b1") (source_create main_source) empty_db

abbrev base_layer : Layer
base_layer = record { id = "l1"; source_id = "s1"; volume = "vol-l1"; parent_layer_id = none }

abbrev parent_row : Branch
parent_row = record dev_branch {
  id = "p";
  name = "parent";
  base_layer_id = some "l1";
  state = resetting;
}

abbrev child_row : Branch
child_row = record dev_branch { id = "k"; name = "child"; rw_volume = "rw-2" }

abbrev family : Db
family = record empty_db { branches = child_row ∷ parent_row ∷ []; layers = base_layer ∷ [] }

abbrev fresh : Instance
fresh = record { rw_volume = "rw-3"; container = "c3"; host = "h3"; port = 7003 }

family-IsForest : IsForest family.layers
unfolding exists_where
family-IsForest = (refl, refl, tt)

parent_there : find_branch "p" family ≡ some parent_row
unfolding find_branch find_where
parent_there = refl

parent_chain : layer_chain "p" family ≡ ok (chain (base_layer ∷ []))
unfolding layer_chain find_branch find_where walk find_layer
parent_chain = refl

abbrev settled : Db
settled =
    after (call "l2") "p" "k" "rw-1" fresh "freeze" family parent_row child_row (base_layer ∷ [])

abbrev settled_parent : Branch
settled_parent =
    parent_after (call "l2") "p" "k" "rw-1" fresh "freeze" family parent_row child_row
      (base_layer ∷ [])

abbrev new_layer : Layer
new_layer = frozen_layer (call "l2") parent_row "rw-1"

walk_total_example :
    (ms : List Layer) × (walk (length family.layers) family.layers (some "l1") ≡ chain ms)
unfolding exists_where
walk_total_example = walk_total family.layers (some "l1") family-IsForest refl

walk_ends_example : walk (suc (length family.layers)) family.layers (some "l9") ≢ out_of_fuel
walk_ends_example = walk_ends family.layers (some "l9") family-IsForest

run-IsForest_example : IsForest (run platform in_clear family ends).layers
run-IsForest_example = run-IsForest platform in_clear family ends family-IsForest

live_volumes_used_example : volume_name_used "vol-l1" family ≡ true
unfolding live_volume_set exists_where select_where
live_volumes_used_example = live_volumes_used "vol-l1" family refl

live_branch_volumes-IsKept_example :
    IsKept family "rw-1"
    × IsKept family "vol-s1"
    × All (λ l. IsKept family l.volume) (base_layer ∷ [])
live_branch_volumes-IsKept_example =
    live_branch_volumes-IsKept family "p" parent_row (base_layer ∷ []) parent_there refl
      parent_chain

abbrev start_destroying : Result (Unit {0} × Db)
start_destroying = transition_branch_set (call "x") "b1" destroying "destroy" (λ b. b) start

transition_branch_set_lem_example :
    ((find_branch "b1" start ≡ none) × (start_destroying ≡ err not_found))
    ⊎ ((b : Branch) × (find_branch "b1" start ≡ some b)
        × (((legal_branch_transition b.state destroying ≡ false)
              × (start_destroying
                  ≡ err (illegal_transition branch (of_branch b.state) (of_branch destroying))))
            ⊎ ((legal_branch_transition b.state destroying ≡ true)
                × (db' : Db) × (b' : Branch) × (start_destroying ≡ ok (tt, db'))
                × (find_branch "b1" db' ≡ some b')
                × (b'.state ≡ destroying))))
transition_branch_set_lem_example =
    transition_branch_set_lem (call "x") "b1" destroying "destroy" (λ b. b) (λ b. refl) start
