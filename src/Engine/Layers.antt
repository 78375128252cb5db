-- ===== src/Engine/Layers.antt =====
-- internal/engine/zfs.go and saga.go: the volumes or datasets under branches and sources, on each backend.
use pgoverlay.Base.{
  ℕ, zero, suc, ◌+◌, ◌-◌, Bool, true, false, Option, none, some, List, [], ◌∷◌, ◌++◌, String, leb,
  if◌then◌else◌, map,
}
use pgoverlay.Cow.{
  Backend, zfs, csi, branch_rw_volume_name_gen, branch_layer_name, zfs_create, zfs_destroy_clone,
  zfs_destroy_snapshot, zfs_destroy_dataset,
}
use pgoverlay.Registry.Types.{Branch, Layer, Db}
use pgoverlay.Registry.Layers.{Walk, chain, missing_layer, out_of_fuel, layer_chain}
use pgoverlay.Registry.Queries.{volume_name_used}
use pgoverlay.Engine.World.{
  Labels, Context, Command, zfs_helper, zfs_destroy, HelperSpec, Engine, broken_chain,
  no_unused_name,
}
use pgoverlay.Engine.Actions.{Action, pure, raise, ◌>>=◌, ◌>>◌, ask, look, drive, named}

-- maxLayerGenerations
abbrev pub max_layer_generations : ℕ
max_layer_generations = 10000

-- The loop of freshBranchLayer over the generations that are left
unfoldable pub pick_layer : String → Db → ℕ → ℕ → Option String
pick_layer name db zero gen = none
pick_layer name db (suc left) gen =
    let next = pick_layer name db left (suc gen) in
    let v = branch_rw_volume_name_gen name gen in if volume_name_used v db then next else some v

-- The names that freshBranchLayer tries: the generations from max(minGen, 1) up to minGen+10000
unfoldable pub free_layer : String → ℕ → Db → Option String
free_layer name min_gen db =
    let first = if leb 1 min_gen then min_gen else 1 in
    pick_layer name db (min_gen + max_layer_generations - first) first

-- layerVolumes
abbrev pub layer_volumes : List Layer → List String
layer_volumes layers = map (λ l. l.volume) layers

module _ (e : Engine) where
  abbrev zfs_on : Backend → Bool
  zfs_on zfs = true
  zfs_on _ = false

  abbrev csi_on : Backend → Bool
  csi_on csi = true
  csi_on _ = false

  abbrev pub is_zfs : Bool
  is_zfs = zfs_on e.planner.backend

  abbrev pub is_csi : Bool
  is_csi = csi_on e.planner.backend

  abbrev pub chosen : Option String → Action e String
  chosen none = raise no_unused_name
  chosen (some v) = pure v

  -- freshBranchLayer
  unfoldable pub fresh_branch_layer : String → ℕ → Action e String
  fresh_branch_layer name min_gen =
      if is_zfs
      then pure (branch_layer_name e.planner name)
      else look (free_layer name min_gen) >>= chosen

  abbrev pub walked : Walk → Action e (List Layer)
  walked (chain layers) = pure layers
  walked missing_layer = raise broken_chain
  walked out_of_fuel = raise broken_chain

  -- LayerChain
  unfoldable pub read_chain : String → Action e (List Layer)
  read_chain id = ask (layer_chain id) >>= walked

  -- instanceLabels
  abbrev pub instance_labels : Labels → Labels
  instance_labels labels = labels ++ ("pgoverlay.instance", e.instance_id) ∷ []

  abbrev pub layer_labels : String → String → Labels
  layer_labels key value = instance_labels (("pgoverlay.managed", "true") ∷ (key, value) ∷ [])

  abbrev zfs_spec : Command → HelperSpec
  zfs_spec c = record { cmd = c; mounts = []; privileged = true }

  -- runZFS
  unfoldable pub run_zfs : Context → Command → Action e (Unit {0})
  run_zfs ctx c = drive (e.run_helper ctx (zfs_spec c)) >> pure tt

  -- createSourceLayer
  unfoldable pub create_source_layer : Context → String → Labels → Action e (Unit {0})
  create_source_layer ctx name labels =
      if is_zfs
      then run_zfs ctx (zfs_helper (zfs_create name))
      else drive (e.create_volume ctx name labels)

  -- removeSourceLayer
  unfoldable pub remove_source_layer : Context → String → Action e (Unit {0})
  remove_source_layer ctx name =
      if is_zfs
      then run_zfs ctx (zfs_destroy (zfs_destroy_dataset name))
      else drive (e.remove_volume ctx name)

  -- The clone, then the snapshot that it depends on
  unfoldable pub destroy_clone_and_snapshot : Context → Branch → Action e (Unit {0})
  destroy_clone_and_snapshot ctx b =
      named "destroy zfs clone" (run_zfs ctx (zfs_destroy (zfs_destroy_clone e.planner b.name)))
      >> named "destroy zfs snapshot"
          (run_zfs ctx (zfs_destroy (zfs_destroy_snapshot b.source_volume b.name)))

  -- removeBranchLayer
  unfoldable pub remove_branch_layer : Context → Branch → Action e (Unit {0})
  remove_branch_layer ctx b =
      if is_zfs then destroy_clone_and_snapshot ctx b else drive (e.remove_volume ctx b.rw_volume)
