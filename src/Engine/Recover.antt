-- ===== src/Engine/Recover.antt =====
-- internal/engine/recover.go: RecoverBranch and the check of the data it restarts on.
use pgoverlay.Base.{
  Bool, true, not, ◌&&◌, ◌||◌, List, [], ◌∷◌, ◌++◌, String, ◌==◌, if◌then◌else◌, exists_where,
}
use Prim.Native.String.{◌++◌ as ◌+++◌}
use pgoverlay.Cow.{zfs_used}
use pgoverlay.Registry.Types.{failed, resetting, branch_state_eq, Source, Branch, Layer}
use pgoverlay.Registry.Branches.{transition_branch}
use pgoverlay.Registry.Queries.{get_branch_by_name}
use pgoverlay.Registry.Lookups.{get_source_by_id}
use pgoverlay.Engine.World.{
  request, detached, VolumeInfo, zfs_helper, Failure, not_recoverable, Engine,
}
use pgoverlay.Engine.Actions.{
  Action, pure, ◌>>=◌, ◌>>◌, ask, call, drive, require, named, failing_as, best_effort, on_failure,
}
use pgoverlay.Engine.Layers.{is_zfs, is_csi, layer_volumes, read_chain, run_zfs}
use pgoverlay.Engine.Instances.{install_overlay_entrypoint}
use pgoverlay.Engine.Provision.{restart_and_mark_ready}
use pgoverlay.Engine.Create.{
  check_child_committed, check_children_allow_reprovision, remove_container,
}

abbrev pub has_volume : String → List VolumeInfo → Bool
has_volume v vols = exists_where (λ i. i.name == v && not i.leftover) vols

unfoldable pub all_present : List String → List VolumeInfo → Bool
all_present [] vols = true
all_present (v ∷ rest) vols = has_volume v vols && all_present rest vols

module _ (e : Engine) where
  -- The volumes that a restart would mount
  abbrev pub needed : Branch → List Layer → List String
  needed b layers =
      if is_csi e
      then b.rw_volume ∷ []
      else b.rw_volume ∷ layer_volumes layers ++ b.source_volume ∷ []

  -- checkBranchData
  unfoldable pub check_branch_data : Branch → List Layer → Action e (Unit {0})
  check_branch_data b layers =
      if is_zfs e
      then failing_as (λ _. not_recoverable b.name)
          (run_zfs e request (zfs_helper (zfs_used b.rw_volume)))
      else named "list volumes" (drive (e.list_managed_volumes request e.instance_id)) >>= λ vols.
          require (all_present (needed b layers) vols) (not_recoverable b.name)

  abbrev pub recover_reason : Failure → String
  recover_reason f = "recover failed: " +++ e.failure_reason f

  abbrev pub refresh_entrypoint : Branch → Action e (Unit {0})
  refresh_entrypoint b =
      if is_zfs e || is_csi e
      then pure tt
      else named "install entrypoint" (install_overlay_entrypoint e request b.rw_volume)

  unfoldable pub restart_recovered : Branch → Source → List Layer → Action e (Unit {0})
  restart_recovered b s layers = do
    named "remove old container" (remove_container e detached b)
    refresh_entrypoint b
    restart_and_mark_ready e request b s layers

  -- RecoverBranch
  unfoldable pub recover_branch : String → Action e Branch
  recover_branch name = do
    b ← ask (get_branch_by_name name)
    require (branch_state_eq b.state failed) (not_recoverable name)
    check_child_committed e b
    s ← ask (get_source_by_id b.source_id)
    check_children_allow_reprovision e b
    layers ← read_chain e b.id
    check_branch_data b layers
    call (λ c. transition_branch c b.id resetting "recover requested: restart on existing data")
    on_failure (λ f. best_effort (call (λ c. transition_branch c b.id failed (recover_reason f))))
        (restart_recovered b s layers)
    ask (get_branch_by_name name)
