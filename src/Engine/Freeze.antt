-- ===== src/Engine/Freeze.antt =====
-- internal/engine/freeze.go: CreateBranchFrom and the freeze of the parent's writable layer.
use Prim.Native.String.{◌++◌ as ◌+++◌}
use pgoverlay.Base.{ℕ, ◌+◌, ◌||◌, List, ◌∷◌, String, if◌then◌else◌, length}
use pgoverlay.Cow.{plan_branch}
use pgoverlay.Registry.Types.{ready, failed, resetting, branch_state_eq, Source, Branch, Layer}
use pgoverlay.Registry.Branches.{create_branch, transition_branch, mark_branch_ready}
use pgoverlay.Registry.Updates.{set_branch_container, set_branch_pending_volume, touch_branch}
use pgoverlay.Registry.Layers.{commit_freeze}
use pgoverlay.Registry.Queries.{get_branch_by_name}
use pgoverlay.Registry.Lookups.{get_source_by_id}
use pgoverlay.Engine.World.{request, detached, ContainerInfo, Failure, not_ready, Engine}
use pgoverlay.Engine.Actions.{
  Action, pure, ◌>>=◌, ◌>>◌, ask, call, drive, require, named, best_effort, on_failure, undoing,
}
use pgoverlay.Engine.Layers.{
  is_zfs, is_csi, read_chain, layer_labels, layer_volumes, fresh_branch_layer,
}
use pgoverlay.Engine.Instances.{
  image, branch_labels, start_overlay_branch, install_overlay_entrypoint,
}
use pgoverlay.Engine.Readiness.{
  psql_cmd, wait_ready, inspect_addr, apply_masking, rotate_branch_credentials,
}
use pgoverlay.Engine.Provision.{
  removing, stopping, restart_and_mark_ready, provision_zfs, provision_csi,
}
use pgoverlay.Engine.Create.{
  validate_name, check_quota, check_layer_depth, expires_at_for, requested, marked_failed,
}

module _ (e : Engine) where
  abbrev pub restore_reason : Failure → Failure → String
  restore_reason cause f =
      "freeze failed ("
      +++ (e.error_text cause +++ ("); parent restore failed: " +++ e.error_text f))

  -- restoreParent
  unfoldable pub restore_parent : Branch → Source → List Layer → Failure → Action e (Unit {0})
  restore_parent parent s layers cause = best_effort (
      on_failure
        (λ f.
          best_effort (call (λ c. transition_branch c parent.id failed (restore_reason cause f))))
        (restart_and_mark_ready e detached parent s layers))

  abbrev pub for_child : Branch → String → String
  for_child child rest = "freeze for child " +++ (child.name +++ rest)

  -- The steps up to the stop of the parent: until then a failure leaves it running.
  unfoldable pub stop_parent : Branch → Branch → Source → Action e (Unit {0})
  stop_parent child parent s = do
    call (λ c. transition_branch c parent.id resetting (for_child child ""))
    named "checkpoint parent" (
        undoing
          (best_effort (
            call (λ c.
              transition_branch c parent.id ready (for_child child " aborted: checkpoint failed"))))
          (drive (e.exec request parent.container_id (psql_cmd s "CHECKPOINT"))))
    named "stop parent" (
        on_failure
          (λ f. best_effort (
            call (λ c.
              transition_branch c parent.id failed
                (for_child child (": stop parent failed: " +++ e.error_text f)))))
          (drive (e.stop_remove detached parent.container_id)))

  unfoldable pub start_stacked : Branch → Source → String → List String → Action e String
  start_stacked b s rw frozen =
      start_overlay_branch e request b.name (plan_branch rw b.source_volume frozen) (image e s)
        (branch_labels e b)

  -- Step 6, once both containers serve
  unfoldable pub commit_step :
      Branch → Branch → String → String → ContainerInfo → Action e (Unit {0})
  commit_step child parent new_rw parent_cid info =
      named "commit freeze" (
        call (λ c.
          commit_freeze c parent.id child.id parent.rw_volume
            (record {
              rw_volume = new_rw;
              container = parent_cid;
              host = info.host;
              port = info.port;
            })
            (for_child child " complete")))
      >> pure tt

  -- Step 5, with the commit: the child's resources over the frozen chain
  unfoldable pub stack_child :
      Branch → Branch → Source → String → String → List String → Action e (String × ContainerInfo)
  stack_child child parent s new_rw parent_cid frozen = do
    named "create rw volume" (
        drive
          (e.create_volume request child.rw_volume (layer_labels e "pgoverlay.branch.id" child.id)))
    removing e child.rw_volume (do
      named "install entrypoint" (install_overlay_entrypoint e request child.rw_volume)
      cid ← named "start instance" (start_stacked child s child.rw_volume frozen)
      stopping e cid (do
        best_effort (call (λ c. set_branch_container c child.id cid))
        named "instance never became ready" (wait_ready e request cid)
        apply_masking e request cid s
        rotate_branch_credentials e request cid child s
        child_info ← inspect_addr e request cid
        parent_info ← inspect_addr e request parent_cid
        commit_step child parent new_rw parent_cid parent_info
        pure (cid, child_info)))

  -- Steps 3 and 4: a fresh writable volume for the parent, claimed first, and its restart on it
  unfoldable pub swap_and_stack :
      Branch → Branch → Source → String → List String → Action e (String × ContainerInfo)
  swap_and_stack child parent s new_rw frozen = do
    named "claim parent rw volume" (call (λ _. set_branch_pending_volume parent.id new_rw))
    undoing (best_effort (call (λ _. set_branch_pending_volume parent.id ""))) (do
      named "create parent rw volume"
          (drive (e.create_volume request new_rw (layer_labels e "pgoverlay.branch.id" parent.id)))
      removing e new_rw (do
        named "install parent entrypoint" (install_overlay_entrypoint e request new_rw)
        cid ← named "restart parent" (start_stacked parent s new_rw frozen)
        stopping e cid (do
          best_effort (call (λ c. set_branch_container c parent.id cid))
          named "parent never became ready after freeze" (wait_ready e request cid)
          best_effort (call (λ c. touch_branch c parent.id))
          best_effort (call (λ c. touch_branch c child.id))
          stack_child child parent s new_rw cid frozen)))

  -- freezeAndProvision, up to its commit and with it
  unfoldable pub freeze_parent : Branch → Branch → Source → Action e (String × ContainerInfo)
  freeze_parent child parent s = do
    layers ← read_chain e parent.id
    new_rw ← fresh_branch_layer e parent.name (length layers + 2)
    stop_parent child parent s
    on_failure (restore_parent parent s layers)
        (swap_and_stack child parent s new_rw (parent.rw_volume ∷ layer_volumes layers))

  -- freezeAndProvision. The child is marked ready after the commit: a failure there undoes nothing.
  unfoldable pub freeze_and_provision : Branch → Branch → Source → Action e (Unit {0})
  freeze_and_provision child parent s = freeze_parent child parent s >>= λ served.
      call (λ c. mark_branch_ready c child.id served.0 served.1.host served.1.port)

  unfoldable pub provision_from : Branch → Branch → Source → Action e (Unit {0})
  provision_from child parent s =
      if is_csi e
      then provision_csi e child s
      else if is_zfs e
      then provision_zfs e child s
      else freeze_and_provision child parent s

  abbrev pub check_depth_of : Branch → Action e (Unit {0})
  check_depth_of parent =
      if is_zfs e || is_csi e then pure tt else read_chain e parent.id >>= check_layer_depth e

  -- A clone's base is the parent's own writable layer.
  abbrev pub base_volume : Branch → String
  base_volume parent = if is_zfs e || is_csi e then parent.rw_volume else parent.source_volume

  -- CreateBranchFrom
  unfoldable pub create_branch_from : String → String → ℕ → Action e Branch
  create_branch_from name parent_name ttl = do
    validate_name e "branch" name
    check_quota e
    parent ← named "parent" (ask (get_branch_by_name parent_name))
    require (branch_state_eq parent.state ready) (not_ready parent_name)
    check_depth_of parent
    s ← ask (get_source_by_id parent.source_id)
    rw ← fresh_branch_layer e name 1
    expires_at ← expires_at_for e ttl
    child ← call (λ c.
        create_branch c
          (requested e name parent.source_id rw (base_volume parent) expires_at parent_name))
    on_failure (marked_failed e child.id) (provision_from child parent s)
    ask (get_branch_by_name name)
