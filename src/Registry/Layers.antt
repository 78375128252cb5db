-- ===== src/Registry/Layers.antt =====
-- Frozen layers of internal/registry/registry.go: their chain, their references and the freeze commit.
use pgoverlay.Base.{
  ℕ, zero, suc, Bool, false, not, ◌&&◌, ◌||◌, Option, none, some, List, [], ◌∷◌, String, ◌==◌,
  if◌then◌else◌, length, count_where, delete_where, find_where, exists_where,
}
use pgoverlay.Registry.Types.{
  ready, resetting, branch_state_eq, of_branch, branch, not_found, illegal_transition,
  constraint_failed, foreign_key, Result, ok, err, Branch, Layer, Db,
}
use pgoverlay.Registry.Sql.{
  Call, Tx, is_live, has_id, journal, find_branch, update_branches, update_state, insert_layer,
}

abbrev pub is_layer : String → Layer → Bool
is_layer id l = l.id == id

abbrev pub names_parent : String → Option String → Bool
names_parent id none = false
names_parent id (some p) = p == id

abbrev pub is_child_of : String → Layer → Bool
is_child_of id l = names_parent id l.parent_layer_id

-- GetLayer
unfoldable pub find_layer : String → List Layer → Option Layer
find_layer id layers = find_where (is_layer id) layers

unfoldable pub created_layer : Layer → Result (Unit {0} × Db) → Result (Layer × Db)
created_layer l (ok (_, db)) = ok (l, db)
created_layer l (err e) = err e

-- CreateLayer
unfoldable pub create_layer : Call → Layer → Tx Layer
unfolding created_layer
create_layer c l db =
    let row = record l { id = c.new_id } in created_layer row (insert_layer row db)

-- DeleteLayer: a layer that is the parent of another one is held by the foreign key.
unfoldable pub delete_layer : String → Tx (Unit {0})
delete_layer id db =
    if exists_where (is_layer id) db.layers
    then if exists_where (λ l. is_child_of id l && not (l.id == id)) db.layers
      then err (constraint_failed foreign_key)
      else ok (tt, record db { layers = delete_where (is_layer id) db.layers })
    else err not_found

-- What the walk over a chain comes to.
pub data Walk : Type 0 where
  chain : List Layer → Walk
  missing_layer out_of_fuel : Walk

abbrev pub cons_walk : Layer → Walk → Walk
cons_walk l (chain ls) = chain (l ∷ ls)
cons_walk l missing_layer = missing_layer
cons_walk l out_of_fuel = out_of_fuel

abbrev pub go_on : Option Layer → (Layer → Walk) → Walk
go_on none rest = missing_layer
go_on (some l) rest = cons_walk l (rest l)

-- The loop of LayerChain, from the id of the topmost layer.
unfoldable pub walk : ℕ → List Layer → Option String → Walk
walk fuel layers none = chain []
walk zero layers (some id) = out_of_fuel
walk (suc fuel) layers (some id) =
    go_on (find_layer id layers) (λ l. walk fuel layers l.parent_layer_id)

-- LayerChain. Each round takes another layer, and the last one finds that there is none.
unfoldable pub layer_chain : String → Db → Result Walk
layer_chain id db = elim (find_branch id db) [
  | none ↦ err not_found
  | some b ↦ ok (walk (suc (length db.layers)) db.layers b.base_layer_id)
]

-- The rows that the recursive query makes for a branch, from its base layer down: whether one is about
-- the layer. Each round takes another layer, and the last one may name a layer that is not there.
unfoldable pub refers_to : String → ℕ → List Layer → Option String → Bool
refers_to id fuel layers none = false
refers_to id zero layers (some x) = x == id
refers_to id (suc fuel) layers (some x) = x == id || (elim (find_layer x layers) [
  | none ↦ false
  | some l ↦ refers_to id fuel layers l.parent_layer_id
])

-- CountBranchesReferencingLayer
unfoldable pub count_branches_referencing_layer : String → Db → ℕ
count_branches_referencing_layer id db =
    count_where (λ b. is_live b && refers_to id (length db.layers) db.layers b.base_layer_id)
      db.branches

abbrev pub frozen_layer : Call → Branch → String → Layer
frozen_layer c parent volume = record {
  id = c.new_id;
  source_id = parent.source_id;
  volume = volume;
  parent_layer_id = parent.base_layer_id;
}

-- The last UPDATE of the freeze commit: the child bases on the new layer.
unfoldable pub freeze_child : Call → String → Layer → Tx Layer
freeze_child c child l db =
    if exists_where (has_id child) db.branches
    then ok (
      l,
      update_branches (has_id child)
          (λ b. record b { base_layer_id = some l.id; updated_at = c.now }) db,
    )
    else err not_found

abbrev pub Instance : Type 0
Instance = record { rw_volume : String; container : String; host : String; port : ℕ }

-- The UPDATE of the parent and its journal row.
unfoldable pub swap_parent : Call → Branch → Layer → Instance → String → Db → Db
swap_parent c parent l fresh reason db =
    journal c branch parent.id (of_branch parent.state) (of_branch ready) reason (
      update_state (has_id parent.id) ready
        (λ b. record b {
          rw_volume = fresh.rw_volume;
          base_layer_id = some l.id;
          container_id = fresh.container;
          host = fresh.host;
          port = fresh.port;
          pending_volume = "";
          updated_at = c.now;
        })
        db)

abbrev pub after_layer :
    Call
    → Branch
    → String
    → Layer
    → Instance
    → String
    → Result (Unit {0} × Db)
    → Result (Layer × Db)
after_layer c parent child l fresh reason (ok (_, db)) =
    freeze_child c child l (swap_parent c parent l fresh reason db)
after_layer c parent child l fresh reason (err e) = err e

unfoldable pub freeze_from : Call → Option Branch → String → String → Instance → String → Tx Layer
unfolding freeze_child swap_parent
freeze_from c none child volume fresh reason db = err not_found
freeze_from c (some parent) child volume fresh reason db =
    if branch_state_eq parent.state resetting
    then after_layer c parent child (frozen_layer c parent volume) fresh reason
        (insert_layer (frozen_layer c parent volume) db)
    else err (illegal_transition branch (of_branch parent.state) (of_branch ready))

-- CommitFreezeCtx
unfoldable pub commit_freeze : Call → String → String → String → Instance → String → Tx Layer
unfolding freeze_from
commit_freeze c parent child volume fresh reason db =
    freeze_from c (find_branch parent db) child volume fresh reason db
