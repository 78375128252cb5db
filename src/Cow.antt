-- ===== src/Cow.antt =====
-- internal/cow/plan.go: the names of volumes and datasets, and the layout of a branch's overlay.
use Prim.Native.String.{◌++◌ as ◌+++◌}
use pgoverlay.Base.{
  ℕ, ◌+◌, Option, none, some, List, [], ◌∷◌, ◌++◌, String, ◌==◌, leb, if◌then◌else◌, decimal,
}

pub data Backend : Type 0 where
  overlay zfs csi : Backend

-- ParseBackend
unfoldable pub parse_backend : String → Option Backend
parse_backend s =
    if s == "overlay"
    then some overlay
    else if s == "zfs"
    then some zfs
    else if s == "csi"
    then some csi
    else none

abbrev pub merged_path : String
merged_path = "/pgoverlay/merged"

abbrev pub rw_path : String
rw_path = "/pgoverlay/rw"

abbrev pub direct_data_path : String
direct_data_path = "/pgoverlay/rw/data"

-- SourceVolumeName
unfoldable pub source_volume_name : String → ℕ → String
source_volume_name source gen =
    if leb gen 1
    then "pgoverlay-src-" +++ source
    else "pgoverlay-src-" +++ (source +++ ("-g" +++ decimal gen))

-- BranchRWVolumeName
unfoldable pub branch_rw_volume_name : String → String
branch_rw_volume_name branch = "pgoverlay-br-" +++ (branch +++ "-rw")

-- BranchRWVolumeNameGen
unfoldable pub branch_rw_volume_name_gen : String → ℕ → String
unfolding branch_rw_volume_name
branch_rw_volume_name_gen branch gen =
    if leb gen 1
    then branch_rw_volume_name branch
    else branch_rw_volume_name branch +++ ("-g" +++ decimal gen)

pub record Planner : Type 0 where
  pub backend : Backend
  pub dataset : String

abbrev source_layer_for : Backend → String → String → ℕ → String
source_layer_for zfs dataset source gen =
    dataset +++ ("/src-" +++ (source +++ ("-g" +++ decimal gen)))
source_layer_for _ dataset source gen = source_volume_name source gen

-- SourceLayerName
unfoldable pub source_layer_name : Planner → String → ℕ → String
source_layer_name p source gen = source_layer_for p.backend p.dataset source gen

abbrev branch_layer_for : Backend → String → String → String
branch_layer_for zfs dataset branch = dataset +++ ("/br-" +++ branch)
branch_layer_for _ dataset branch = branch_rw_volume_name branch

-- BranchLayerName
unfoldable pub branch_layer_name : Planner → String → String
branch_layer_name p branch = branch_layer_for p.backend p.dataset branch

-- SnapshotName
unfoldable pub snapshot_name : String → String → String
snapshot_name source_dataset branch = source_dataset +++ ("@br-" +++ branch)

-- Mountpoint
unfoldable pub mountpoint : String → String
mountpoint dataset = "/" +++ dataset

-- The two embedded entrypoint scripts
pub data Script : Type 0 where
  overlay_script direct_script : Script

-- Entrypoint
unfoldable pub entrypoint : Backend → Script
entrypoint overlay = overlay_script
entrypoint zfs = direct_script
entrypoint csi = direct_script

-- The argument vectors of the zfs command
unfoldable pub zfs_create : String → List String
zfs_create dataset = "zfs" ∷ "create" ∷ "-p" ∷ dataset ∷ []

unfoldable pub zfs_snapshot : String → String → List String
unfolding snapshot_name
zfs_snapshot source_dataset branch = "zfs" ∷ "snapshot" ∷ snapshot_name source_dataset branch ∷ []

unfoldable pub zfs_clone : Planner → String → String → List String
unfolding snapshot_name branch_layer_name
zfs_clone p source_dataset branch =
    "zfs" ∷ "clone" ∷ snapshot_name source_dataset branch ∷ branch_layer_name p branch ∷ []

unfoldable pub zfs_destroy_clone : Planner → String → List String
unfolding branch_layer_name
zfs_destroy_clone p branch = "zfs" ∷ "destroy" ∷ "-r" ∷ branch_layer_name p branch ∷ []

unfoldable pub zfs_destroy_snapshot : String → String → List String
unfolding snapshot_name
zfs_destroy_snapshot source_dataset branch =
    "zfs" ∷ "destroy" ∷ "-r" ∷ snapshot_name source_dataset branch ∷ []

unfoldable pub zfs_destroy_dataset : String → List String
zfs_destroy_dataset dataset = "zfs" ∷ "destroy" ∷ "-r" ∷ dataset ∷ []

unfoldable pub zfs_used : String → List String
zfs_used dataset = "zfs" ∷ "list" ∷ "-Hp" ∷ "-o" ∷ "used" ∷ dataset ∷ []

pub record Plan : Type 0 where
  pub source_volume : String
  pub rw_volume : String
  pub layer_volumes : List String
  pub lowers : List String

-- LowerMountTarget
unfoldable pub lower_mount_target : ℕ → String
lower_mount_target i = "/pgoverlay/lower" +++ decimal i

-- The loop of PlanBranch from layer i on: a frozen volume's content is in its upper directory.
unfoldable pub layer_lowers : ℕ → List String → List String
unfolding lower_mount_target
layer_lowers i [] = []
layer_lowers i (v ∷ rest) = (lower_mount_target (i + 1) +++ "/upper") ∷ layer_lowers (i + 1) rest

-- PlanBranch
unfoldable pub plan_branch : String → String → List String → Plan
unfolding layer_lowers lower_mount_target
plan_branch rw source layers = record {
  source_volume = source;
  rw_volume = rw;
  layer_volumes = layers;
  lowers = layer_lowers 0 layers ++ (lower_mount_target 0 +++ "/data") ∷ [];
}

-- strings.Join
unfoldable pub join : String → List String → String
join sep [] = ""
join sep (s ∷ []) = s
join sep (s ∷ t ∷ rest) = s +++ (sep +++ join sep (t ∷ rest))

-- LowerEnv
unfoldable pub lower_env : Plan → String
unfolding join
lower_env p = join ":" p.lowers
