-- ===== src/Engine/Reconcile.antt =====
-- internal/engine/reconcile.go: applyAction with its re-checks, the restart of a lost branch, and a whole
-- pass.
use Prim.Native.String.{◌++◌ as ◌+++◌}
use pgoverlay.Base.{
  Bool, true, false, not, ◌&&◌, ◌||◌, Option, none, some, List, [], ◌∷◌, String, ◌==◌, nat_eq,
  if◌then◌else◌, find_where, exists_where, reverse,
}
use pgoverlay.Registry.Types.{
  ready, failed, destroying, seeding, branch_state_eq, source_state_eq, Result, ok, err, Source,
  Branch, Layer,
}
use pgoverlay.Registry.Updates.{
  update_branch_endpoint, update_branch_endpoint_noted, fail_ready_branch, fail_stuck_branch,
}
use pgoverlay.Registry.Sources.{fail_stuck_source as fail_source_row}
use pgoverlay.Registry.Layers.{delete_layer, count_branches_referencing_layer}
use pgoverlay.Registry.Queries.{
  get_branch_by_name, list_live_branches, count_live_branches_referencing_rw, live_volume_set,
}
use pgoverlay.Registry.Lookups.{get_source_by_id, get_source_by_name}
use pgoverlay.Registry.Volumes.{member}
use pgoverlay.Engine.World.{
  request, detached, no_such_container, ContainerInfo, Failure, driver_error, branch_moved,
  name_taken, Engine,
}
use pgoverlay.Engine.Actions.{
  Action, pure, raise, ◌>>=◌, ◌>>◌, ask, look, call, drive, peek, require, named, best_effort,
  on_failure, undoing, rescue,
}
use pgoverlay.Engine.Layers.{read_chain, remove_branch_layer, remove_source_layer}
use pgoverlay.Engine.Instances.{start_on_own_data}
use pgoverlay.Engine.Readiness.{wait_ready, inspect_addr}
use pgoverlay.Engine.Create.{remove_container}
use pgoverlay.Engine.Destroy.{state_name, destroy_branch}
use pgoverlay.Engine.Drift.{
  ActionKind, reap, fail_stuck, fail_stuck_source, retry_destroy, restart_branch, update_endpoint,
  remove_orphan_container, remove_orphan_helper, gc_layer, gc_volume, Remedy, Pass, label, short_id,
  join_host_port, address_moved, owned_in_flight, plan_reconcile,
}

module _ (e : Engine) where
  abbrev pub if_found : {R : Type 0} → (R → Action e Bool) → Result R → Action e Bool
  if_found k (ok r) = k r
  if_found k (err x) = pure false

  -- A row that is gone is no drift any more.
  abbrev with_branch : String → (Branch → Action e Bool) → Action e Bool
  with_branch name k = look (get_branch_by_name name) >>= if_found k

  abbrev with_source : String → (Source → Action e Bool) → Action e Bool
  with_source name k = look (get_source_by_name name) >>= if_found k

  abbrev pub missing_or_raise : Failure → Action e (Option ContainerInfo)
  missing_or_raise (driver_error no_such_container) = pure none
  missing_or_raise f = raise f

  -- Inspect, where a container that is not there is no error
  unfoldable pub find_container : String → Action e (Option ContainerInfo)
  find_container cid =
      rescue (drive (e.inspect request cid) >>= λ c. pure (some c)) missing_or_raise

  unfoldable pub apply_reap : String → Action e Bool
  apply_reap name = with_branch name λ b.
      if not (b.expires_at == "")
        && (branch_state_eq b.state ready || branch_state_eq b.state failed)
      then destroy_branch e b.name >> pure true
      else pure false

  abbrev pub container_now : Branch → Result Branch → String
  container_now b (ok cur) = if cur.id == b.id then cur.container_id else b.container_id
  container_now b (err x) = b.container_id

  -- What is left of a branch that was failed: its volume stays if it is another live branch's data.
  unfoldable pub clean_stuck : Branch → Action e Bool
  clean_stuck b = do
    cid ← look (λ db. container_now b (get_branch_by_name b.name db))
    best_effort (remove_container e request (record b { container_id = cid }))
    referenced ← look (count_live_branches_referencing_rw b.name b.rw_volume)
    if nat_eq referenced 0 then best_effort (remove_branch_layer e request b) else pure tt
    pure true

  unfoldable pub apply_fail_stuck : Pass → String → Action e Bool
  apply_fail_stuck p name = with_branch name λ b. (do
    lost ← call (λ c.
        fail_stuck_branch e.platform c b.id p.before ("reconcile: stuck " +++ state_name b.state))
    if lost then clean_stuck b else pure false)

  unfoldable pub apply_fail_stuck_source : Pass → String → Action e Bool
  apply_fail_stuck_source p name = with_source name λ s. (do
    claimed ← peek e.is_claimed
    if source_state_eq s.state seeding && not (claimed ("source:" +++ s.id))
        then (do
          lost ← call (λ c. fail_source_row e.platform c s.id p.before (
              "reconcile: seeding made no progress for "
              +++ (p.timeout_text +++ " (the seeding process stopped)")))
          if lost
              then best_effort (remove_source_layer e request s.volume) >> pure true
              else pure false)
        else pure false)

  unfoldable pub apply_retry_destroy : String → Action e Bool
  apply_retry_destroy name = with_branch name λ b.
      if branch_state_eq b.state destroying
      then destroy_branch e b.name >> pure true
      else pure false

  abbrev pub remove_if_own : Branch → Option ContainerInfo → Action e (Unit {0})
  remove_if_own b none = pure tt
  remove_if_own b (some c) =
      if label "pgoverlay.instance" c.labels == e.instance_id
        && label "pgoverlay.branch.id" c.labels == b.id
      then drive (e.stop_remove request c.id)
      else raise (name_taken b.name)

  -- removeStrayBranchContainer
  unfoldable pub remove_stray_branch_container : Branch → Action e (Unit {0})
  remove_stray_branch_container b = find_container ("pgoverlay-br-" +++ b.name) >>= remove_if_own b

  -- notReady: a branch that does not come back is failed, unless the pass itself is being stopped.
  unfoldable pub give_up : Branch → String → Failure → Action e (Unit {0})
  give_up b cid cause = do
    stopping ← peek (e.is_done request)
    if stopping then pure tt else (do
      best_effort (drive (e.stop_remove detached cid))
      lost ← call (λ c.
          fail_ready_branch c b.id cid
            ("reconcile: container lost and restart failed: " +++ e.error_text cause))
      require lost branch_moved)

  abbrev lost_text : Branch → String → String
  lost_text b why =
      if why == ""
      then "container " +++ (short_id b.container_id +++ " of the ready branch is gone or stopped")
      else why

  abbrev repair_note : Branch → String → String → ContainerInfo → String
  repair_note b why cid info =
      "reconcile: "
      +++ (lost_text b why
          +++ ("; restarted the branch on its volumes as container "
              +++ (short_id cid +++ (" at " +++ join_host_port info.host info.port))))

  -- A failure of the note itself is not one of the restart.
  unfoldable pub come_back : Branch → String → Action e ContainerInfo
  come_back b cid =
      on_failure (λ f. best_effort (give_up b cid f))
        (do named "never became ready" (wait_ready e request cid); inspect_addr e request cid)

  -- The row stays ready; the container is recorded before the wait.
  unfoldable pub own_container : Branch → String → Action e (Unit {0})
  own_container b cid = undoing (best_effort (drive (e.stop_remove detached cid))) (do
    owned ← call (λ _. update_branch_endpoint b.id b.container_id cid b.host b.port)
    require owned branch_moved)

  -- restartBranch
  unfoldable pub restart_lost_branch : Branch → String → Action e (Unit {0})
  restart_lost_branch b why = do
    s ← named "source" (ask (get_source_by_id b.source_id))
    named "remove the stopped container" (remove_container e request b)
    remove_stray_branch_container b
    layers ← read_chain e b.id
    cid ← named "start branch" (start_on_own_data e request b s layers)
    own_container b cid
    info ← come_back b cid
    noted ← call (λ c.
        update_branch_endpoint_noted c b.id cid cid info.host info.port
          (repair_note b why cid info))
    require noted branch_moved

  abbrev pub is_down : Option ContainerInfo → Bool
  is_down none = true
  is_down (some c) = c.stopped

  abbrev restart_if_down : Branch → String → Option ContainerInfo → Action e Bool
  restart_if_down b why c = if is_down c then restart_lost_branch b why >> pure true else pure false

  abbrev restart_if_lost : Branch → String → Action e Bool
  restart_if_lost b why =
      if b.container_id == ""
      then restart_lost_branch b why >> pure true
      else find_container b.container_id >>= restart_if_down b why

  unfoldable pub apply_restart : String → String → Action e Bool
  apply_restart name why = do
    claimed ← peek e.is_claimed
    if claimed ("branch:" +++ name)
        then pure false
        else with_branch name
            λ b. if branch_state_eq b.state ready then restart_if_lost b why else pure false

  abbrev pub note_move : Branch → String → Option ContainerInfo → Action e Bool
  note_move b who none = pure false
  note_move b who (some c) =
      if address_moved b c
      then call (λ k.
        update_branch_endpoint_noted k b.id b.container_id b.container_id c.host c.port (
          who
          +++ (": container "
              +++ (short_id b.container_id
                  +++ (" moved from "
                      +++ (join_host_port b.host b.port
                          +++ (" to "
                              +++ (join_host_port c.host c.port
                                  +++ "; recorded the new address"))))))))
      else pure false

  unfoldable pub apply_update_endpoint : String → Action e Bool
  apply_update_endpoint name = with_branch name λ b.
      if branch_state_eq b.state ready && not (b.container_id == "")
      then find_container b.container_id >>= note_move b "reconcile"
      else pure false

  abbrev pub remove_unowned : String → Option ContainerInfo → Action e Bool
  remove_unowned cid none = pure false
  remove_unowned cid (some c) = look (λ db. owned_in_flight c (list_live_branches db)) >>= λ owned.
      if owned then pure false else drive (e.stop_remove request cid) >> pure true

  unfoldable pub apply_remove_container : String → Action e Bool
  apply_remove_container cid =
      look (λ db. exists_where (λ b. b.container_id == cid) (list_live_branches db)) >>= λ known.
      if known then pure false else find_container cid >>= remove_unowned cid

  abbrev pub remove_finished : String → Option ContainerInfo → Action e Bool
  remove_finished cid none = pure false
  remove_finished cid (some c) =
      if c.stopped then drive (e.stop_remove request cid) >> pure true else pure false

  unfoldable pub apply_remove_helper : String → Action e Bool
  apply_remove_helper cid = find_container cid >>= remove_finished cid

  abbrev pub drop_dead : Option Layer → Action e Bool
  drop_dead none = pure false
  drop_dead (some l) = look (count_branches_referencing_layer l.id) >>= λ n.
      if nat_eq n 0
      then (do remove_source_layer e request l.volume; call (λ _. delete_layer l.id); pure true)
      else pure false

  unfoldable pub apply_gc_layer : String → Action e Bool
  apply_gc_layer v = look (λ db. find_where (λ l. l.volume == v) (reverse db.layers)) >>= drop_dead

  unfoldable pub apply_gc_volume : String → Action e Bool
  apply_gc_volume v = look (λ db. member v (live_volume_set db)) >>= λ kept.
      if kept then pure false else drive (e.remove_volume request v) >> pure true

  -- applyAction: whether the remedy was still called for
  unfoldable pub apply_action : Pass → ActionKind → String → String → Action e Bool
  apply_action p reap target why = apply_reap target
  apply_action p fail_stuck target why = apply_fail_stuck p target
  apply_action p fail_stuck_source target why = apply_fail_stuck_source p target
  apply_action p retry_destroy target why = apply_retry_destroy target
  apply_action p restart_branch target why = apply_restart target why
  apply_action p update_endpoint target why = apply_update_endpoint target
  apply_action p remove_orphan_container target why = apply_remove_container target
  apply_action p remove_orphan_helper target why = apply_remove_helper target
  apply_action p gc_layer target why = apply_gc_layer target
  apply_action p gc_volume target why = apply_gc_volume target

  abbrev Taken : Type 0
  Taken = List Remedy × List (Remedy × Failure)

  abbrev pub recorded : Remedy → Option Failure → Bool → Taken → Taken
  recorded r (some f) applied t = (t.0, (r, f) ∷ t.1)
  recorded r none applied t = (if applied then r ∷ t.0 else t.0, t.1)

  abbrev went : Bool → Option Failure × Bool
  went applied = (none, applied)

  abbrev went_wrong : Failure → Option Failure × Bool
  went_wrong f = (some f, false)

  unfoldable pub attempt : Pass → Remedy → Action e (Option Failure × Bool)
  attempt p r =
      rescue (apply_action p r.kind r.target r.reason >>= λ applied. pure (went applied))
        (λ f. pure (went_wrong f))

  -- The loop of ApplyReconcile: a remedy that fails is recorded and passed over.
  unfoldable pub apply_each : Pass → List Remedy → Action e Taken
  apply_each p [] = pure ([], [])
  apply_each p (r ∷ rest) = do
    result ← attempt p r
    others ← apply_each p rest
    pure (recorded r result.0 result.1 others)

  -- ApplyReconcile
  unfoldable pub apply_reconcile : Pass → Action e Taken
  apply_reconcile p = plan_reconcile e p >>= apply_each p
