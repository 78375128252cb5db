-- ===== src/Engine/Mounts.antt =====
-- The mounts of a branch container and the overlay stack that its environment names.
use Prim.Native.String.{◌++◌ as ◌+++◌}
use pgoverlay.Base.{
  ℕ, ◌+◌, true, false, ◌≡◌, refl, ap, List, [], ◌∷◌, ◌++◌, String, map, select_where,
}
use pgoverlay.Cow.{layer_lowers, lower_mount_target, plan_branch}
use pgoverlay.Engine.World.{Mount, mount_volume}
use pgoverlay.Engine.Instances.{read_only_at, layer_mounts, overlay_mounts, writable}

abbrev pub upper_of : Mount → String
upper_of m = m.target +++ "/upper"

abbrev pub content_of_source : Mount → String
content_of_source m = m.target +++ "/data"

-- The frozen layers' mounts and the lower directories are made by two loops that count alike.
lowers-mounts :
    (i : ℕ) (layers : List String) → layer_lowers i layers ≡ map upper_of (layer_mounts i layers)
unfolding layer_lowers layer_mounts
lowers-mounts i [] = refl
lowers-mounts i (v ∷ rest) =
    ap (λ l. upper_of (read_only_at v (i + 1)) ∷ l) (lowers-mounts (i + 1) rest)

volumes-mounts :
    (i : ℕ) (layers : List String) → map (λ m. m.volume) (layer_mounts i layers) ≡ layers
unfolding layer_mounts
volumes-mounts i [] = refl
volumes-mounts i (v ∷ rest) = ap (λ l. v ∷ l) (volumes-mounts (i + 1) rest)

read_only-mounts :
    (i : ℕ) (layers : List String)
    → map (λ m. m.read_only) (layer_mounts i layers) ≡ map (λ v. true) layers
unfolding layer_mounts
read_only-mounts i [] = refl
read_only-mounts i (v ∷ rest) = ap (λ l. true ∷ l) (read_only-mounts (i + 1) rest)

map-append {ℓ κ} :
    {A : Type ℓ} {B : Type κ} (f : A → B) (xs ys : List A) → map f (xs ++ ys) ≡ map f xs ++ map f ys
map-append f [] ys = refl
map-append f (x ∷ xs) ys = ap (λ l. f x ∷ l) (map-append f xs ys)

-- The directories that an overlay has to stack, in a container with these mounts: the upper directory of
-- every read-only mount after the first, in their order, and below them the data in the first.
unfoldable pub stack_of : List Mount → List String
stack_of [] = []
stack_of (m ∷ rest) =
    map upper_of (select_where (λ n. n.read_only) rest) ++ content_of_source m ∷ []

select-layers :
    (i : ℕ) (layers : List String) (m : Mount)
    → m.read_only ≡ false
    → select_where (λ n. n.read_only) (layer_mounts i layers ++ m ∷ []) ≡ layer_mounts i layers
unfolding select_where layer_mounts
select-layers i [] m h = rw h refl
select-layers i (v ∷ rest) m h =
    ap (λ l. read_only_at v (i + 1) ∷ l) (select-layers (i + 1) rest m h)

-- The container of a branch mounts its source volume, then its frozen layers, newest first, all read-only,
-- then its writable volume; and the lower directories that its plan names are, in their order, the upper
-- directories of those mounts of layers and at the bottom the data of the source volume's mount.
pub overlay_mounts-plan_branch :
    (upper source : String) (layers : List String)
    → ((plan_branch upper source layers).lowers
        ≡ stack_of (overlay_mounts (plan_branch upper source layers)))
      × (map (λ m. m.volume) (overlay_mounts (plan_branch upper source layers))
          ≡ source ∷ layers ++ upper ∷ [])
      × (map (λ m. m.read_only) (overlay_mounts (plan_branch upper source layers))
          ≡ true ∷ map (λ v. true) layers ++ false ∷ [])
unfolding plan_branch overlay_mounts stack_of
overlay_mounts-plan_branch upper source layers = (
  rw (select-layers 0 layers (writable mount_volume upper) refl)
      (ap (λ l. l ++ (lower_mount_target 0 +++ "/data") ∷ []) (lowers-mounts 0 layers)),
  rw (map-append, volumes-mounts 0 layers) refl,
  rw (map-append, read_only-mounts 0 layers) refl,
)
