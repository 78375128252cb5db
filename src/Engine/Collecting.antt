-- ===== src/Engine/Collecting.antt =====
-- What reconcile leaves alone.
use pgoverlay.Base.{
  Bool, true, false, ◌≡◌, refl, inl, inr, some, List, [], ◌∷◌, String, ◌==◌, eq_iff, arith, All,
  Bool-cases, exists_where,
}
use pgoverlay.Registry.Types.{ok, Branch, Layer, Db}
use pgoverlay.Registry.Sql.{is_live, find_branch}
use pgoverlay.Registry.Layers.{chain, layer_chain, is_layer}
use pgoverlay.Registry.Queries.{live_volume_set}
use pgoverlay.Registry.Volumes.{member, IsKept, live_branch_volumes-IsKept}
use pgoverlay.Engine.World.{done, Engine, World}
use pgoverlay.Engine.Actions.{pure, ◌>>=◌, look}
use pgoverlay.Engine.Layers.{layer_volumes}
use pgoverlay.Engine.Drift.{ActionKind, remove_orphan_container, gc_layer, gc_volume, Remedy, Pass}
use pgoverlay.Engine.Reconcile.{apply_gc_volume}

IsKept-member :
    (db : Db) (v : String) (vs : List String)
    → All (IsKept db) vs
    → member v vs ≡ true
    → IsKept db v
unfolding exists_where
IsKept-member db v (x ∷ vs) kept h = elim (Bool-cases (x == v)) [
  | inl e ↦ rw (← (eq_iff x v).0 e) kept.0
  | inr e ↦ IsKept-member db v vs kept.1 (ground (arith, h, e))
]
IsKept-member db v [] kept h = absurd (ground (arith, h))

All-volumes :
    (db : Db) (ms : List Layer)
    → All (λ l. IsKept db l.volume) ms
    → All (IsKept db) (layer_volumes ms)
All-volumes db [] h = tt
All-volumes db (l ∷ rest) h = (h.0, All-volumes db rest h.1)

stands-IsKept :
    (db : Db) (v id : String) (b : Branch) (ms : List Layer)
    → find_branch id db ≡ some b
    → is_live b ≡ true
    → layer_chain id db ≡ ok (chain ms)
    → member v (b.rw_volume ∷ b.source_volume ∷ layer_volumes ms) ≡ true
    → IsKept db v
stands-IsKept db v id b ms row live walked stands =
    let kept = live_branch_volumes-IsKept db id b ms row live walked in
    IsKept-member db v (b.rw_volume ∷ b.source_volume ∷ layer_volumes ms)
      (kept.0, (kept.1, All-volumes db ms kept.2)) stands

module _ (e : Engine) where
  -- The collection of a volume, whenever it comes, changes nothing and reports that it was not called for,
  -- if a live branch with a complete layer chain stands on the volume: as its writable volume, its source
  -- volume or a layer of its chain.
  pub collection_spares :
      (w : World e) (id v : String) (b : Branch) (ms : List Layer)
      → find_branch id w.db ≡ some b
      → is_live b ≡ true
      → layer_chain id w.db ≡ ok (chain ms)
      → member v (b.rw_volume ∷ b.source_volume ∷ layer_volumes ms) ≡ true
      → (v == "") ≡ false
      → apply_gc_volume e v w ≡ (done false, w)
  unfolding apply_gc_volume ◌>>=◌ look pure
  collection_spares w id v b ms row live walked stands named =
      let this : IsKept w.db v = stands-IsKept w.db v id b ms row live walked stands in
      let member_of : member v (live_volume_set w.db) ≡ true = ground (arith, this, named) in
      rw member_of refl

-- `id` is the row of a live branch with the complete layer chain `ms`.
abbrev pub LivesOn : Db → Branch → String → List Layer → Type 0
LivesOn db b id ms =
    (find_branch id db ≡ some b) × (is_live b ≡ true) × (layer_chain id db ≡ ok (chain ms))

-- What a collecting remedy promises of each live branch: that a container is not the branch's, that a layer
-- with that volume is in the table and not in the branch's chain, and that a volume is none of those that
-- the branch stands on
abbrev pub Spares : Db → ActionKind → String → Type 0
Spares db remove_orphan_container target =
    (id : String) (b : Branch)
    → find_branch id db ≡ some b
    → is_live b ≡ true
    → (target == "") ≡ false
    → (b.container_id == target) ≡ false
Spares db gc_layer target =
    (l : Layer) × (l.volume ≡ target)
    × ((id : String) (b : Branch) (ms : List Layer)
        → LivesOn db b id ms
        → exists_where (is_layer l.id) ms ≡ false)
Spares db gc_volume target =
    (id : String) (b : Branch) (ms : List Layer)
    → LivesOn db b id ms
    → (target == "") ≡ false
    → member target (b.rw_volume ∷ b.source_volume ∷ layer_volumes ms) ≡ false
Spares db _ target = Unit {0}

abbrev pub AllSpare : Db → List Remedy → Type 0
AllSpare db rs = All (λ r. Spares db r.kind r.target) rs

module _ (e : Engine) (p : Pass) (db : Db) (claimed : String → Bool) where
  abbrev Spared : Remedy → Type 0
  Spared r = Spares db r.kind r.target
