-- ===== src/Engine/Provision.antt =====
-- internal/engine/saga.go, csi.go and recover.go: the resource steps of a create or a reset on each
-- backend, and the restart of a branch on its own data.
use Prim.Native.String.{◌++◌ as ◌+++◌}
use pgoverlay.Base.{not, ◌||◌, Option, none, some, List, [], String, ◌==◌, if◌then◌else◌}
use pgoverlay.Cow.{
  plan_branch, mountpoint, zfs_snapshot, zfs_clone, zfs_destroy_clone, zfs_destroy_snapshot,
}
use pgoverlay.Registry.Types.{
  ready, failed, resetting, branch_state_eq, Result, ok, err, Source, Branch, Layer, Db,
}
use pgoverlay.Registry.Branches.{transition_branch, mark_branch_ready}
use pgoverlay.Registry.Updates.{set_branch_container}
use pgoverlay.Registry.Queries.{get_branch_by_name}
use pgoverlay.Engine.World.{
  Context, request, detached, mount_volume, mount_host_path, zfs_helper, zfs_destroy, ContainerInfo,
  Failure, not_ready, Engine,
}
use pgoverlay.Engine.Actions.{
  Action, pure, raise, ◌>>=◌, ◌>>◌, ask, call, drive, named, best_effort, on_failure, undoing,
}
use pgoverlay.Engine.Layers.{is_zfs, is_csi, read_chain, layer_labels, layer_volumes, run_zfs}
use pgoverlay.Engine.Instances.{
  image, branch_labels, start_overlay_branch, start_zfs_branch, start_direct_branch,
  start_on_own_data, install_overlay_entrypoint, install_direct_entrypoint,
}
use pgoverlay.Engine.Readiness.{psql_cmd, wait_ready, inspect_addr, await_and_mark}

module _ (e : Engine) where
  -- The container of an unfinished saga goes away with it.
  abbrev pub stopping : {A : Type 0} → String → Action e A → Action e A
  stopping cid rest = undoing (best_effort (drive (e.stop_remove detached cid))) rest

  abbrev pub removing : {A : Type 0} → String → Action e A → Action e A
  removing v rest = undoing (best_effort (drive (e.remove_volume detached v))) rest

  abbrev pub marking_ready : Context → Branch → Source → String → Action e (Unit {0})
  marking_ready ctx b s cid = stopping cid (await_and_mark e ctx b s cid)

  -- provision, on the overlay backend
  unfoldable pub provision_overlay : Branch → Source → Action e (Unit {0})
  provision_overlay b s = do
    layers ← read_chain e b.id
    let p = plan_branch b.rw_volume b.source_volume (layer_volumes layers)
    named "create rw volume"
        (drive (e.create_volume request p.rw_volume (layer_labels e "pgoverlay.branch.id" b.id)))
    removing p.rw_volume (do
      named "install entrypoint" (install_overlay_entrypoint e request p.rw_volume)
      cid ←
          named "start instance"
            (start_overlay_branch e request b.name p (image e s) (branch_labels e b))
      marking_ready request b s cid)

  -- provisionZFS
  unfoldable pub provision_zfs : Branch → Source → Action e (Unit {0})
  provision_zfs b s = do
    named "zfs snapshot" (run_zfs e request (zfs_helper (zfs_snapshot b.source_volume b.name)))
    undoing
        (best_effort
          (run_zfs e detached (zfs_destroy (zfs_destroy_snapshot b.source_volume b.name))))
        (do
          named "zfs clone"
              (run_zfs e request (zfs_helper (zfs_clone e.planner b.source_volume b.name)))
          undoing
              (best_effort (run_zfs e detached (zfs_destroy (zfs_destroy_clone e.planner b.name))))
              (do
                named "install entrypoint"
                    (install_direct_entrypoint e request mount_host_path (mountpoint b.rw_volume))
                cid ← named "start instance" (start_zfs_branch e request b (image e s))
                marking_ready request b s cid))

  -- restartOnOwnData, with the container recorded on the row before the wait
  unfoldable pub restart_on_own_data :
      Context → Branch → Source → List Layer → Action e (String × ContainerInfo)
  restart_on_own_data ctx b s layers = do
    cid ← named "start instance" (start_on_own_data e ctx b s layers)
    stopping cid (do
      best_effort (call (λ c. set_branch_container c b.id cid))
      named "instance never became ready" (wait_ready e ctx cid)
      info ← inspect_addr e ctx cid
      pure (cid, info))

  -- restartAndMarkReady
  unfoldable pub restart_and_mark_ready :
      Context → Branch → Source → List Layer → Action e (Unit {0})
  restart_and_mark_ready ctx b s layers = do
    started ← restart_on_own_data ctx b s layers
    stopping started.0 (
        named "mark ready"
          (call (λ c. mark_branch_ready c b.id started.0 started.1.host started.1.port)))

  abbrev pub restart_reason : Option Failure → Failure → String
  restart_reason none f = "restart failed: " +++ e.error_text f
  restart_reason (some cause) f =
      "clone failed (" +++ (e.error_text cause +++ ("); restart failed: " +++ e.error_text f))

  -- restartCSIBranch: what it returns is what the restart comes to.
  unfoldable pub restart_csi_branch :
      Context → Branch → Source → Option Failure → Action e (Unit {0})
  restart_csi_branch ctx b s cause =
      on_failure
        (λ f. best_effort (call (λ c. transition_branch c b.id failed (restart_reason cause f))))
        (restart_and_mark_ready ctx b s [])

  abbrev pub found_parent : Branch → Result Branch → Action e (Option Branch)
  found_parent b (err _) = pure none
  found_parent b (ok p) =
      if not (p.rw_volume == b.source_volume) || p.container_id == ""
      then pure none
      else if branch_state_eq p.state ready
      then pure (some p)
      else raise (not_ready p.name)

  abbrev pub parent_lookup : String → Db → Result (Result Branch)
  parent_lookup name db = ok (get_branch_by_name name db)

  -- csiQuiesceTarget
  unfoldable pub csi_quiesce_target : Branch → Action e (Option Branch)
  csi_quiesce_target b =
      if b.parent_branch_name == ""
      then pure none
      else ask (parent_lookup b.parent_branch_name) >>= found_parent b

  -- The parent is stopped for the clone: until then a failure leaves it running.
  unfoldable pub quiesce : Source → Branch → Branch → Action e (Unit {0})
  quiesce s b p = do
    call (λ c. transition_branch c p.id resetting ("stop for clone to " +++ b.name))
    named "checkpoint parent" (
        undoing
          (best_effort (
            call (λ c.
              transition_branch c p.id ready
                ("clone to " +++ (b.name +++ " aborted: checkpoint failed")))))
          (drive (e.exec request p.container_id (psql_cmd s "CHECKPOINT"))))
    named "stop parent" (
        on_failure
          (λ f. best_effort (
            call (λ c.
              transition_branch c p.id failed
                ("stop for clone to " +++ (b.name +++ (" failed: " +++ e.error_text f))))))
          (drive (e.stop_remove detached p.container_id)))

  -- The clone and its entrypoint
  unfoldable pub clone_base : {A : Type 0} → Branch → Action e A → Action e A
  clone_base b rest = do
    named "clone volume" (
        drive (
          e.clone_volume request b.source_volume b.rw_volume
            (layer_labels e "pgoverlay.branch.id" b.id)))
    removing b.rw_volume (do
      named "install entrypoint" (install_direct_entrypoint e request mount_volume b.rw_volume)
      rest)

  abbrev pub start_clone : Branch → Source → Action e (Unit {0})
  start_clone b s = do
    cid ←
        named "start instance"
          (start_direct_branch e request b.name b.rw_volume (image e s) (branch_labels e b))
    marking_ready request b s cid

  -- provisionCSI. Up to its own restart the parent is brought back by every failure, after the clone
  -- is removed; once it is back, only the clone is.
  unfoldable pub provision_csi_from : Branch → Source → Option Branch → Action e (Unit {0})
  provision_csi_from b s none = clone_base b (start_clone b s)
  provision_csi_from b s (some p) = do
    quiesce s b p
    on_failure (λ f. best_effort (restart_csi_branch detached p s (some f)))
        (clone_base b (named "restart parent" (restart_and_mark_ready detached p s [])))
    removing b.rw_volume (start_clone b s)

  unfoldable pub provision_csi : Branch → Source → Action e (Unit {0})
  provision_csi b s = csi_quiesce_target b >>= provision_csi_from b s

  -- provision
  unfoldable pub provision : Branch → Source → Action e (Unit {0})
  provision b s =
      if is_zfs e
      then provision_zfs b s
      else if is_csi e
      then provision_csi b s
      else provision_overlay b s
