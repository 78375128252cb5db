-- ===== src/Engine/Instances.antt =====
-- internal/engine/saga.go and csi.go: how the container of a branch is set up and started.
use Prim.Native.String.{◌++◌ as ◌+++◌}
use pgoverlay.Base.{ℕ, ◌+◌, true, false, List, [], ◌∷◌, ◌++◌, String, ◌==◌, if◌then◌else◌}
use pgoverlay.Cow.{
  Plan, merged_path, rw_path, direct_data_path, overlay_script, direct_script, mountpoint,
  lower_mount_target, plan_branch, lower_env,
}
use pgoverlay.Registry.Types.{Source, Branch, Layer}
use pgoverlay.Engine.World.{
  Labels, Context, MountKind, mount_volume, mount_host_path, Mount, Command, install_entrypoint,
  HelperSpec, BranchSpec, Engine,
}
use pgoverlay.Engine.Actions.{Action, pure, ◌>>◌, drive}
use pgoverlay.Engine.Layers.{is_zfs, is_csi, instance_labels, layer_volumes}

abbrev pub read_only_at : String → ℕ → Mount
read_only_at v i = record {
  kind = mount_volume;
  volume = v;
  target = lower_mount_target i;
  read_only = true;
}

abbrev pub writable : MountKind → String → Mount
writable kind v = record { kind = kind; volume = v; target = rw_path; read_only = false }

-- The loop of startOverlayBranch over the frozen volumes, from layer i on
unfoldable pub layer_mounts : ℕ → List String → List Mount
layer_mounts i [] = []
layer_mounts i (v ∷ rest) = read_only_at v (i + 1) ∷ layer_mounts (i + 1) rest

unfoldable pub overlay_mounts : Plan → List Mount
overlay_mounts p =
    read_only_at p.source_volume 0 ∷ layer_mounts 0 p.layer_volumes
    ++ writable mount_volume p.rw_volume ∷ []

abbrev pub branch_entrypoint : List String
branch_entrypoint = "/bin/sh" ∷ (rw_path +++ "/entrypoint.sh") ∷ []

-- Engine.image
unfoldable pub image_for : String → Source → String
image_for default s =
    if s.image == ""
    then if s.pg_version == "" then default else "postgres:" +++ s.pg_version
    else s.image

module _ (e : Engine) where
  abbrev pub image : Source → String
  image s = image_for e.default_image s

  -- branchLabels
  abbrev pub branch_labels : Branch → Labels
  branch_labels b = instance_labels e (
      ("pgoverlay.managed", "true")
      ∷ ("pgoverlay.role", "branch")
      ∷ ("pgoverlay.branch.id", b.id)
      ∷ ("pgoverlay.branch.name", b.name)
      ∷ [])

  abbrev pub overlay_spec : String → Plan → String → Labels → BranchSpec
  overlay_spec name p image labels = record {
    name = "pgoverlay-br-" +++ name;
    image = image;
    env =
        ("PGDATA=" +++ merged_path) ∷ ("PGOVERLAY_LOWERS=" +++ lower_env p) ∷ e.overlay_branch_env;
    mounts = overlay_mounts p;
    entrypoint = branch_entrypoint;
    labels = labels;
  }

  -- startOverlayBranch
  unfoldable pub start_overlay_branch : Context → String → Plan → String → Labels → Action e String
  start_overlay_branch ctx name p image labels =
      drive (e.start_branch ctx (overlay_spec name p image labels))

  abbrev pub direct_spec : String → Mount → String → Labels → BranchSpec
  direct_spec name mount image labels = record {
    name = "pgoverlay-br-" +++ name;
    image = image;
    env = ("PGDATA=" +++ direct_data_path) ∷ [];
    mounts = mount ∷ [];
    entrypoint = branch_entrypoint;
    labels = labels;
  }

  -- startZFSBranch
  unfoldable pub start_zfs_branch : Context → Branch → String → Action e String
  start_zfs_branch ctx b image = drive (
      e.start_branch ctx (
        direct_spec b.name (writable mount_host_path (mountpoint b.rw_volume)) image
          (branch_labels b)))

  -- startDirectBranch
  unfoldable pub start_direct_branch : Context → String → String → String → Labels → Action e String
  start_direct_branch ctx name volume image labels =
      drive (e.start_branch ctx (direct_spec name (writable mount_volume volume) image labels))

  -- startOnOwnData
  unfoldable pub start_on_own_data : Context → Branch → Source → List Layer → Action e String
  start_on_own_data ctx b s layers =
      if is_zfs e
      then start_zfs_branch ctx b (image s)
      else if is_csi e
      then start_direct_branch ctx b.name b.rw_volume (image s) (branch_labels b)
      else start_overlay_branch ctx b.name
          (plan_branch b.rw_volume b.source_volume (layer_volumes layers)) (image s)
          (branch_labels b)

  abbrev install_spec : Command → Mount → HelperSpec
  install_spec c mount = record { cmd = c; mounts = mount ∷ []; privileged = false }

  -- installOverlayEntrypoint
  unfoldable pub install_overlay_entrypoint : Context → String → Action e (Unit {0})
  install_overlay_entrypoint ctx v =
      drive (
        e.run_helper ctx
          (install_spec (install_entrypoint overlay_script) (writable mount_volume v)))
      >> pure tt

  -- installDirectEntrypoint, and the same step of provisionZFS on a clone's mountpoint
  unfoldable pub install_direct_entrypoint : Context → MountKind → String → Action e (Unit {0})
  install_direct_entrypoint ctx kind v =
      drive (e.run_helper ctx (install_spec (install_entrypoint direct_script) (writable kind v)))
      >> pure tt
