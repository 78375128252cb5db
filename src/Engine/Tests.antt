-- ===== src/Engine/Tests.antt =====
-- The engine's theorems at work on a container host.
use Prim.Native.String.{◌++◌ as ◌+++◌}
use pgoverlay.Base.{
  true, false, ◌≡◌, refl, map, sym, ap, ◌∙◌, Option, none, some, [], ◌∷◌, String, delete_where,
  find_where, exists_where, count_where, update_where, decimal, Bool-cases, inl, inr, ◌⊎◌, ◌↔◌,
}
use pgoverlay.Cow.{plan_branch}
use pgoverlay.Registry.Types.{ok, Branch, Db}
use pgoverlay.Registry.Sql.{
  is_live, find_branch, insert_branch, journal, update_state, update_branches, forget_password,
}
use pgoverlay.Registry.Branches.{
  create_branch, transition_branch, transition_branch_set, transition_from, swap_state,
  mark_branch_ready,
}
use pgoverlay.Registry.Sources.{
  create_source, insert_source, delete_failed_rows, set_source_state, source_from, find_source,
}
use pgoverlay.Registry.Run.{apply, run}
use pgoverlay.Engine.World.{
  VolumeInfo, Reply, reply, refused, DriverError, unavailable, request, done, Engine, World,
}
use pgoverlay.Engine.Actions.{
  ◌>>=◌, pure, ask, look, require, call, drive, failing_as, best_effort, on_failure, rescue,
}
use pgoverlay.Engine.Layers.{free_layer, read_chain, remove_branch_layer, remove_source_layer}
use pgoverlay.Engine.Create.{create_branch_saga, reset_branch, check_no_clones}
use pgoverlay.Engine.Destroy.{
  volume_needed, gc_source_volume, gc_layers, begin_destroy, teardown_branch, bury, collect,
  destroy_branch,
}
use pgoverlay.Registry.Layers.{chain, layer_chain, walk}
use pgoverlay.Registry.Queries.{
  get_branch_by_name, count_live_branches_by_volume, count_live_branches_by_rw_volume,
  count_live_branches_referencing_rw,
}
use pgoverlay.Registry.Lookups.{get_source_by_id}
use pgoverlay.Engine.Readiness.{wait_ready}
use pgoverlay.Registry.Volumes.{member}
use pgoverlay.Engine.Drift.{Pass}
use pgoverlay.Engine.Reconcile.{apply_gc_volume}
use pgoverlay.Engine.Instances.{overlay_mounts}
use pgoverlay.Engine.Collecting.{collection_spares}
use pgoverlay.Engine.Burial.{IsBuried, destroy_branch-IsBuried}
use pgoverlay.Engine.Mounts.{stack_of, overlay_mounts-plan_branch}
use pgoverlay.Engine.Freeze.{create_branch_from}
use pgoverlay.Engine.Admission.{
  Admitted, AdmittedFrom, IsFree, create_branch_saga-Admitted, create_branch_from-AdmittedFrom,
  reset_branch-IsFree,
}
use pgoverlay.Engine.Fresh.{Search, free_layer_lem}
use pgoverlay.Engine.Waiting.{Serves, wait_ready_lem}
use pgoverlay.Engine.Tidy.{stock_container, Orderly}
use pgoverlay.Engine.Host.{
  Host, call_with, start_named, host, dev_branch, start_db, start_host, start,
}

-- The same host, where no call draws "b1" again
abbrev one_id : Engine
one_id = record host { clock = λ n. call_with "x" }

abbrev one_start : World one_id
one_start = record { db = start.db; runtime = start.runtime; ticks = 0 }

abbrev branch_or : Option Branch → Branch
branch_or none = dev_branch
branch_or (some b) = b

abbrev b1 : Db → Branch
b1 db = branch_or (find_branch "b1" db)

start_row : find_branch "b1" start_db ≡ some (b1 start_db)
unfolding run apply create_source insert_source delete_failed_rows set_source_state source_from
    find_source create_branch insert_branch journal exists_where find_where delete_where count_where
    update_where find_branch transition_branch transition_branch_set transition_from swap_state
    mark_branch_ready update_state update_branches forget_password
start_row = refl

free_layer_lem_example : Search "dev" start_db (free_layer "dev" 1 start_db) 1 10000
free_layer_lem_example = free_layer_lem "dev" start_db 1

-- A host whose containers never answer
abbrev mute : Engine
mute = record host { exec = λ ctx cid cmd h. (refused unavailable, h) }

abbrev named_by : String → Reply String → String
named_by default (reply cid) = cid
named_by default (refused x) = default

start_named_lem :
    (own cid : String) (h : Host)
    → (start_named own h).0 ≡ reply cid
    → (h.stock.containers cid ≡ false) × ((start_named own h).1.stock ≡ stock_container cid h.stock)
start_named_lem own cid h e = elim (Bool-cases (h.stock.containers own)) [
  | inl taken ↦ absurd (cc (rw taken at e))
  | inr free ↦
      let same : own ≡ cid = ap (named_by "") (rw free at e) in
      (ap h.stock.containers (sym same) ∙ free, rw (free, same) refl)
]

start_named_refused :
    (own : String) (h : Host) (x : DriverError)
    → (start_named own h).0 ≡ refused x
    → (start_named own h).1.stock ≡ h.stock
start_named_refused own h x e = elim (Bool-cases (h.stock.containers own)) [
  | inl taken ↦ rw taken refl
  | inr free ↦ absurd (cc (rw free at e))
]

mute_orderly : Orderly mute
mute_orderly = record {
  stock = λ h. h.stock;
  create_adds = λ ctx v labels r e. refl;
  create_refused = λ ctx v labels r x e. absurd (cc);
  missed = λ h. false;
  remove_removes = λ ctx v r e. (refl, refl);
  remove_refused = λ ctx v r x e. absurd (cc);
  start_adds = λ ctx spec r cid e. start_named_lem (spec.name +++ decimal r.started) cid r e;
  start_refused = λ ctx spec r x e. start_named_refused (spec.name +++ decimal r.started) r x e;
  stop_removes = λ ctx cid r e. (refl, refl);
  stop_refused = λ ctx cid r x e. absurd (cc);
  helper_keeps = λ ctx spec r. refl;
  exec_keeps = λ ctx cid cmd r. refl;
  inspect_keeps = λ ctx cid r. refl;
}

abbrev mute_start : World mute
mute_start = record { db = start_db; runtime = start_host; ticks = 0 }

wait_ready_lem_example :
    ((wait_ready host request "c1" start).0 ≡ done tt) ↔ Serves host request "c1" 3 start
wait_ready_lem_example = wait_ready_lem host request "c1" start

-- The branch "dev" at the start: its row by name, its chain, and what it stands on
dev_facts :
    (get_branch_by_name "dev" start_db ≡ ok (b1 start_db))
    × (layer_chain "b1" start_db ≡ ok (chain []))
    × (is_live (b1 start_db) ≡ true)
    × (member "vol-s1" ((b1 start_db).rw_volume ∷ (b1 start_db).source_volume ∷ []) ≡ true)
unfolding run apply create_source insert_source delete_failed_rows set_source_state source_from
    find_source create_branch insert_branch journal exists_where find_where delete_where count_where
    update_where find_branch transition_branch transition_branch_set transition_from swap_state
    mark_branch_ready update_state update_branches forget_password get_branch_by_name layer_chain
    walk
dev_facts = (refl, refl, refl, refl)

destroyed_well : (destroy_branch one_id "dev" one_start).0 ≡ done tt
unfolding run apply create_source insert_source delete_failed_rows set_source_state source_from
    find_source create_branch insert_branch journal exists_where find_where delete_where count_where
    update_where find_branch transition_branch transition_branch_set transition_from swap_state
    mark_branch_ready update_state update_branches forget_password destroy_branch check_no_clones
    ◌>>=◌ pure ask look require call drive read_chain failing_as best_effort on_failure rescue
    begin_destroy teardown_branch bury collect gc_layers gc_source_volume remove_branch_layer
    remove_source_layer count_live_branches_by_volume get_branch_by_name layer_chain walk
    volume_needed get_source_by_id count_live_branches_by_rw_volume
    count_live_branches_referencing_rw
destroyed_well = refl

destroy_branch-IsBuried_example :
    IsBuried (b1 start_db).id (destroy_branch one_id "dev" one_start).1.db
destroy_branch-IsBuried_example =
    destroy_branch-IsBuried one_id "dev" (b1 start_db) one_start dev_facts.0 destroyed_well

collection_spares_example : apply_gc_volume host "vol-s1" start ≡ (done false, start)
collection_spares_example =
    collection_spares host start "b1" "vol-s1" (b1 start_db) [] start_row dev_facts.2 dev_facts.1
      dev_facts.3 refl

abbrev noon : Pass
noon = record {
  now = 100;
  now_text = "2026-01-02";
  stuck_timeout = 10;
  timeout_text = "10s";
  before = "2026-01-01";
}

abbrev stray_volume : VolumeInfo
stray_volume = record { name = "old"; created = some 1; leftover = false }

overlay_mounts-plan_branch_example :
    ((plan_branch "rw" "src" ("l2" ∷ "l1" ∷ [])).lowers
      ≡ stack_of (overlay_mounts (plan_branch "rw" "src" ("l2" ∷ "l1" ∷ []))))
    × (map (λ m. m.volume) (overlay_mounts (plan_branch "rw" "src" ("l2" ∷ "l1" ∷ [])))
        ≡ "src" ∷ "l2" ∷ "l1" ∷ "rw" ∷ [])
    × (map (λ m. m.read_only) (overlay_mounts (plan_branch "rw" "src" ("l2" ∷ "l1" ∷ [])))
        ≡ true ∷ true ∷ true ∷ false ∷ [])
overlay_mounts-plan_branch_example = overlay_mounts-plan_branch "rw" "src" ("l2" ∷ "l1" ∷ [])

create_branch_saga-Admitted_example :
    ((create_branch_saga host "new" "main" 0 start).1 ≡ start) ⊎ Admitted host "new" "main" start.db
create_branch_saga-Admitted_example = create_branch_saga-Admitted host "new" "main" 0 start

create_branch_from-AdmittedFrom_example :
    ((create_branch_from host "new" "dev" 0 start).1 ≡ start)
    ⊎ AdmittedFrom host "new" "dev" start.db
create_branch_from-AdmittedFrom_example = create_branch_from-AdmittedFrom host "new" "dev" 0 start

reset_branch-IsFree_example :
    ((reset_branch host "dev" start).1 ≡ start)
    ⊎ ((b : Branch) × (get_branch_by_name "dev" start.db ≡ ok b) × IsFree host b start.db)
reset_branch-IsFree_example = reset_branch-IsFree host "dev" start
