-- ===== src/Registry/Forest/Writes.antt =====
-- The statements that write the layers keep them a forest.
use pgoverlay.Base.{
  update_where, Bool, true, false, not, ◌&&◌, ◌≡◌, refl, ap, inl, inr, Option, none, some, List, [],
  ◌∷◌, String, ◌==◌, eq_iff, arith, All, All-delete, All-of_not_exists, exists-delete, All-map,
  All-both, and_true, exists_where, delete_where, Bool-cases,
}
use pgoverlay.Registry.Types.{ready, Source, resetting, branch_state_eq, Layer, Db, Branch, Result}
use pgoverlay.Registry.Sql.{
  journal, update_state, update_branches, has_id, forget_password, Call, committed, parent_exists,
  insert_layer,
}
use pgoverlay.Registry.Sources.{delete_found, all_parents_exist}
use pgoverlay.Registry.Layers.{
  Instance, create_layer, delete_layer, freeze_from, freeze_child, swap_parent, is_layer,
  is_child_of, names_parent,
}
use pgoverlay.Registry.Forest.{IsForest}

abbrev pub ForestAfter : {A : Type 0} → Db → Result (A × Db) → Type 0
ForestAfter db r = IsForest (committed db r).layers

insert_layer-IsForest :
    (l : Layer) (db : Db) → IsForest db.layers → ForestAfter db (insert_layer l db)
unfolding insert_layer
insert_layer-IsForest l db f = elim (Bool-cases (exists_where (λ o. o.id == l.id) db.layers)) [
  | inl e ↦ rw e f
  | inr new_id ↦ elim (Bool-cases (parent_exists l.parent_layer_id db.layers)) [
    | inl kept ↦ rw (new_id, kept) (new_id, kept, f)
    | inr gone ↦ rw (new_id, gone) f
  ]
]

-- A deletion that leaves no layer without its parent keeps the forest.
abbrev HasParent : List Layer → Layer → Type 0
HasParent ls l = parent_exists l.parent_layer_id ls ≡ true

weaken_parent :
    (l : Layer) (older : List Layer) (o : Option String)
    → parent_exists o older ≡ true
    → parent_exists o (l ∷ older) ≡ true
unfolding exists_where
weaken_parent l older none h = refl
weaken_parent l older (some p) h = ground (arith, h)

parents_exist : (ls : List Layer) → IsForest ls → All (HasParent ls) ls
parents_exist [] f = tt
parents_exist (l ∷ older) f = (
  weaken_parent l older l.parent_layer_id f.1,
  All-map _ _ (λ m h. weaken_parent l older m.parent_layer_id h) older (parents_exist older f.2),
)

drop_head :
    (l : Layer) (older kept : List Layer) (o : Option String)
    → exists_where (is_layer l.id) older ≡ false
    → parent_exists o older ≡ true
    → parent_exists o (l ∷ kept) ≡ true
    → parent_exists o kept ≡ true
unfolding exists_where
drop_head l older kept none new h k = refl
drop_head l older kept (some p) new h k = elim (Bool-cases (l.id == p)) [
  | inr miss ↦ ground (arith, k)
  | inl hit ↦
      absurd (ground (arith, ap (λ i. exists_where (is_layer i) older) ((eq_iff l.id p).0 hit)))
]

not_exists-delete :
    (p q : Layer → Bool) (ls : List Layer)
    → exists_where p ls ≡ false
    → exists_where p (delete_where q ls) ≡ false
unfolding exists_where delete_where
not_exists-delete p q [] h = h
not_exists-delete p q (l ∷ ls) h = ground (arith, not_exists-delete p q ls)

delete-IsForest :
    (q : Layer → Bool) (ls : List Layer)
    → IsForest ls
    → All (HasParent (delete_where q ls)) (delete_where q ls)
    → IsForest (delete_where q ls)
unfolding delete_where
delete-IsForest q [] f h = tt
delete-IsForest q (l ∷ older) f h = elim (Bool-cases (q l)) [
  | inl e ↦ rw e (delete-IsForest q older f.2 (rw e at h))
  | inr e ↦
      let h' : All (HasParent (l ∷ delete_where q older)) (l ∷ delete_where q older) = rw e at h in
      rw e (
        not_exists-delete (is_layer l.id) q older f.0,
        drop_head l older (delete_where q older) l.parent_layer_id f.0 f.1 h'.0,
        delete-IsForest q older f.2 (
            All-map _ _
              (λ m both.
                drop_head l older (delete_where q older) m.parent_layer_id f.0 both.0 both.1)
              (delete_where q older)
              (All-both _ _ (delete_where q older)
                (All-delete _ _ q (λ m x _. x) older (parents_exist older f.2)) h'.1)),
      )
]

all_parents_exist_sound :
    (ls all : List Layer) → all_parents_exist ls all ≡ true → All (HasParent all) ls
all_parents_exist_sound [] all h = tt
all_parents_exist_sound (l ∷ ls) all h =
    let (first, rest) =
      and_true (parent_exists l.parent_layer_id all) (all_parents_exist ls all) h in
    (first, all_parents_exist_sound ls all rest)

parent_kept :
    (id : String) (ls : List Layer) (l : Layer)
    → HasParent ls l
    → is_child_of id l ≡ false
    → HasParent (delete_where (is_layer id) ls) l
parent_kept id ls l h k = go l.parent_layer_id h k
  where
    go :
        (o : Option String)
        → parent_exists o ls ≡ true
        → names_parent id o ≡ false
        → parent_exists o (delete_where (is_layer id) ls) ≡ true
    go none h k = refl
    go (some p) h k =
        exists-delete (is_layer p) (is_layer id) ls (λ x here. ground (arith, k, eq_iff x.id p)) h

orphans_none :
    (id : String) (ls : List Layer)
    → IsForest ls
    → exists_where (λ l. is_child_of id l && not (l.id == id)) ls ≡ false
    → All (HasParent (delete_where (is_layer id) ls)) (delete_where (is_layer id) ls)
orphans_none id ls f free =
    All-delete _ _ (is_layer id) (λ l h apart. parent_kept id ls l h.0 (ground (arith, h.1, apart)))
      ls (All-both _ _ ls (parents_exist ls f) (All-of_not_exists _ ls free))

module _ (c : Call) (db : Db) (f : IsForest db.layers) where
  pub create_layer-IsForest : (l : Layer) → ForestAfter db (create_layer c l db)
  unfolding create_layer insert_layer
  create_layer-IsForest l = elim (Bool-cases (exists_where (λ o. o.id == c.new_id) db.layers)) [
    | inl e ↦ rw e f
    | inr new_id ↦ elim (Bool-cases (parent_exists l.parent_layer_id db.layers)) [
      | inl kept ↦ rw (new_id, kept) (new_id, kept, f)
      | inr gone ↦ rw (new_id, gone) f
    ]
  ]

  pub delete_layer-IsForest : (id : String) → ForestAfter db (delete_layer id db)
  unfolding delete_layer
  delete_layer-IsForest id = elim (Bool-cases (exists_where (is_layer id) db.layers)) [
    | inr e ↦ rw e f
    | inl e ↦
        elim (Bool-cases (exists_where (λ l. is_child_of id l && not (l.id == id)) db.layers)) [
          | inl held ↦ rw (e, held) f
          | inr free ↦
              rw (e, free)
                (delete-IsForest (is_layer id) db.layers f (orphans_none id db.layers f free))
        ]
  ]

  pub delete_found-IsForest :
      (id : String) (o : Option Source) → ForestAfter db (delete_found c id o db)
  unfolding delete_found
  delete_found-IsForest id none = f
  delete_found-IsForest id (some x) = elim (Bool-cases (all_parents_exist kept kept)) [
    | inl e ↦
        rw e (
          delete-IsForest (λ l. l.source_id == id) db.layers f
            (all_parents_exist_sound kept kept e))
    | inr e ↦ rw e f
  ]
    where
      kept : List Layer
      kept = delete_where (λ l. l.source_id == id) db.layers

  pub freeze_from-IsForest :
      (o : Option Branch) (child volume : String) (fresh : Instance) (reason : String)
      → ForestAfter db (freeze_from c o child volume fresh reason db)
  unfolding freeze_from insert_layer freeze_child swap_parent journal update_state update_branches
  freeze_from-IsForest none child volume fresh reason = f
  freeze_from-IsForest (some b) child volume fresh reason =
      elim (Bool-cases (branch_state_eq b.state resetting)) [
        | inr e ↦ rw e f
        | inl e ↦ elim (Bool-cases (exists_where (λ o. o.id == c.new_id) db.layers)) [
          | inl held ↦ rw (e, held) f
          | inr new_id ↦ elim (Bool-cases (parent_exists b.base_layer_id db.layers)) [
            | inr gone ↦ rw (e, new_id, gone) f
            | inl kept ↦
                elim (Bool-cases (
                  exists_where (has_id child) (
                    update_where (has_id b.id)
                      (λ r. forget_password (record r {
                        rw_volume = fresh.rw_volume;
                        base_layer_id = some c.new_id;
                        container_id = fresh.container;
                        host = fresh.host;
                        port = fresh.port;
                        pending_volume = "";
                        updated_at = c.now;
                        state = ready;
                      }))
                      db.branches))) [
                        | inl there ↦ rw (e, new_id, kept, there) (new_id, kept, f)
                        | inr lost ↦ rw (e, new_id, kept, lost) f
                      ]
          ]
        ]
      ]
