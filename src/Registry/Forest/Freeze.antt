-- ===== src/Registry/Forest/Freeze.antt =====
-- What the freeze commit makes of the parent, the child and their layer chains.
use pgoverlay.Base.{suc, ◌≡◌, refl, ap, some, List, ◌∷◌, String, length}
use pgoverlay.Registry.Types.{ready, Branch, Layer, Db, Result, ok, err}
use pgoverlay.Registry.Sql.{Call, has_id, find_branch, forget_password, update_branches}
use pgoverlay.Registry.Layers.{Walk, walk, layer_chain, frozen_layer, Instance, swap_parent}

pub layer_chain_at :
    (id : String) (db : Db) (b : Branch)
    → find_branch id db ≡ some b
    → layer_chain id db ≡ ok (walk (suc (length db.layers)) db.layers b.base_layer_id)
unfolding layer_chain
layer_chain_at id db b e = rw (e, layer_chain) refl

walk_or : Walk → Result Walk → Walk
walk_or v (ok u) = u
walk_or v (err x) = v

pub ok-injective : (v w : Walk) → ok v ≡ ok w → v ≡ w
unfolding walk_or
ok-injective v w e = ap (walk_or v) e

module _ (c : Call) (parent child volume : String) (fresh : Instance) (reason : String) (db : Db)
    (b k : Branch) (ms : List Layer) where
  abbrev pub frozen : Layer
  frozen = frozen_layer c b volume

  abbrev pub after : Db
  after =
      update_branches (has_id child)
        (λ r. record r { base_layer_id = some frozen.id; updated_at = c.now })
        (swap_parent c b frozen fresh reason (record db { layers = frozen ∷ db.layers }))

  -- the parent's row with its columns swapped
  abbrev pub swapped : Branch → Branch
  swapped r = forget_password (record r {
    rw_volume = fresh.rw_volume;
    base_layer_id = some frozen.id;
    container_id = fresh.container;
    host = fresh.host;
    port = fresh.port;
    pending_volume = "";
    updated_at = c.now;
    state = ready;
  })

  abbrev pub parent_after : Branch
  parent_after = swapped b
