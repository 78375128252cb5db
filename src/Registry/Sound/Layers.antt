-- ===== src/Registry/Sound/Layers.antt =====
-- The layer operations and the freeze commit keep the registry sound.
use pgoverlay.Base.{
  true, ◌≡◌, refl, inl, inr, some, List, String, ◌==◌, arith, All-every, All-of_find, not, ◌&&◌,
  ◌∷◌, exists_where, find_where, delete_where, Bool-cases, Option-cases,
}
use pgoverlay.Registry.Types.{
  ready, resetting, branch_state_eq, of_branch, Branch, Layer, Db, branch_state_eq_sound,
}
use pgoverlay.Registry.Sql.{Call, committed, has_id, find_branch, insert_layer, parent_exists}
use pgoverlay.Registry.Layers.{
  Instance, create_layer, delete_layer, is_layer, is_child_of, frozen_layer, freeze_child,
  swap_parent, freeze_from, commit_freeze,
}
use pgoverlay.Registry.Trail.{last_state}
use pgoverlay.Registry.Sound.Keys.{IsSound, IsSound-if, update_branches-IsSound}
use pgoverlay.Registry.Sound.Moves.{move-IsSound}

-- The layers are no part of what is sound here.
pub layers-IsSound : (ls : List Layer) (db : Db) → IsSound db → IsSound (record db { layers = ls })
layers-IsSound ls db s = record {
  ids = s.ids;
  names = s.names;
  states = s.states;
  trail = s.trail;
  homes = s.homes;
}

module _ (c : Call) (db : Db) (s : IsSound db) where
  pub create_layer-IsSound : (l : Layer) → IsSound (committed db (create_layer c l db))
  unfolding create_layer insert_layer
  create_layer-IsSound l = elim (Bool-cases (exists_where (λ o. o.id == c.new_id) db.layers)) [
    | inl e ↦ rw e s
    | inr e ↦ elim (Bool-cases (parent_exists l.parent_layer_id db.layers)) [
      | inl f ↦ rw (e, f) (layers-IsSound (record l { id = c.new_id } ∷ db.layers) db s)
      | inr f ↦ rw (e, f) s
    ]
  ]

  pub delete_layer-IsSound : (id : String) → IsSound (committed db (delete_layer id db))
  unfolding delete_layer
  delete_layer-IsSound id =
      IsSound-if db (exists_where (is_layer id) db.layers) _ _
        (λ _.
          IsSound-if db (exists_where (λ l. is_child_of id l && not (l.id == id)) db.layers) _ _
            (λ _. s) (λ _. layers-IsSound (delete_where (is_layer id) db.layers) db s))
        (λ _. s)

  module _ (child volume reason : String) (fresh : Instance) where
    swap_parent-IsSound :
        (b : Branch) (l : Layer)
        → last_state b.id db.transitions ≡ of_branch b.state
        → branch_state_eq b.state resetting ≡ true
        → (ls : List Layer) → IsSound (swap_parent c b l fresh reason (record db { layers = ls }))
    unfolding swap_parent
    swap_parent-IsSound b l prior e ls =
        move-IsSound c b.id b.state ready reason (has_id b.id) _ (record db { layers = ls })
          (λ r. (refl, refl, refl)) (λ r h. h) (All-every _ (λ r h. h) db.branches)
          (ground (arith, branch_state_eq_sound b.state resetting)) prior (layers-IsSound ls db s)

    freeze_child-IsSound :
        (l : Layer) (d : Db) → IsSound d → IsSound (committed db (freeze_child c child l d))
    unfolding freeze_child
    freeze_child-IsSound l d sd =
        IsSound-if db (exists_where (has_id child) d.branches) _ _
          (λ _. update_branches-IsSound (has_id child) _ d (λ r. (refl, refl, refl)) (λ r. refl) sd)
          (λ _. s)

    freeze_from-IsSound :
        (b : Branch)
        → last_state b.id db.transitions ≡ of_branch b.state
        → IsSound (committed db (freeze_from c (some b) child volume fresh reason db))
    unfolding freeze_from insert_layer
    freeze_from-IsSound b prior =
        IsSound-if db (branch_state_eq b.state resetting) _ _
          (λ e. elim (Bool-cases (exists_where (λ o. o.id == c.new_id) db.layers)) [
            | inl held ↦ rw held s
            | inr new_id ↦ elim (Bool-cases (parent_exists b.base_layer_id db.layers)) [
              | inr gone ↦ rw (new_id, gone) s
              | inl kept ↦
                  rw (new_id, kept)
                    (freeze_child-IsSound (frozen_layer c b volume) _ (
                      swap_parent-IsSound b (frozen_layer c b volume) prior e
                        (frozen_layer c b volume ∷ db.layers)))
            ]
          ])
          (λ _. s)

    pub commit_freeze-IsSound :
        (parent : String)
        → IsSound (committed db (commit_freeze c parent child volume fresh reason db))
    unfolding commit_freeze find_branch
    commit_freeze-IsSound parent = elim (Option-cases (find_where (has_id parent) db.branches)) [
      | inl e ↦ rw e s
      | inr (b, e) ↦
          rw e (freeze_from-IsSound b (All-of_find _ (has_id parent) db.branches b e s.states).0)
    ]
