-- ===== src/Engine/Burial.antt =====
-- What a destroy that ends well has done.
use pgoverlay.Base.{
  Bool, true, not, ◌&&◌, ◌==◌, ◌≡◌, refl, sym, ap, ◌∙◌, inl, inr, Option, none, some, List, [], ◌∷◌,
  String, Bool-cases, find_where, exists_where,
}
use pgoverlay.Registry.Types.{
  destroyed, branch_state_eq, illegal_transition, not_found, ok, err, BranchState, Branch, Layer,
  Db,
}
use pgoverlay.Registry.Sql.{Call, committed, has_id, find_branch}
use pgoverlay.Registry.Branches.{transition_branch}
use pgoverlay.Registry.Layers.{is_layer, is_child_of, delete_layer}
use pgoverlay.Registry.Queries.{get_branch_by_name}
use pgoverlay.Registry.Lookups.{get_branch_by_id}
use pgoverlay.Registry.Outcome.{transition_branch_set_lem}
use pgoverlay.Engine.World.{Reply, Failure, registry_error, Outcome, done, failed, Engine, World}
use pgoverlay.Engine.Actions.{◌>>=◌, call, ask, look, drive, finish, raise, pure}
use pgoverlay.Engine.Layers.{run_zfs, remove_source_layer}
use pgoverlay.Engine.Destroy.{
  is_gone, lost_to_another, bury, gc_layers, gc_source_volume, collect, destroy_branch,
}
use pgoverlay.Engine.Flow.{Stays, control}
use pgoverlay.Engine.Grants.{
  Granted, Grants, bind-Grants, any-Grants, call-Grants, rescue-Grants, pure-Grants,
}

-- The row of the branch has the state destroyed.
abbrev pub IsBuried : String → Db → Type 0
IsBuried id db = (b : Branch) × (find_branch id db ≡ some b) × (b.state ≡ destroyed)

same_state : (s : BranchState) → branch_state_eq s destroyed ≡ true → s ≡ destroyed
same_state destroyed h = refl
same_state s h = absurd (cc)

module _ (e : Engine) (id : String) where
  abbrev Buried : World e → Type 0
  Buried w = IsBuried id w.db

  drive-Buried : {A : Type 0} (f : e.Runtime → Reply A × e.Runtime) → Stays Buried (drive f)
  unfolding Stays drive
  drive-Buried f w h = h

  unlayer_branches :
      (l : String) (w : World e) → (finish (delete_layer l w.db) w).1.db.branches ≡ w.db.branches
  unfolding delete_layer
  unlayer_branches l w = elim (Bool-cases (exists_where (is_layer l) w.db.layers)) [
    | inr none_there ↦ rw none_there refl
    | inl there ↦
        rw there
          (elim (Bool-cases (exists_where (λ k. is_child_of l k && not (k.id == l)) w.db.layers)) [
            | inl held ↦ rw held refl
            | inr free ↦ rw free refl
          ])
  ]

  unlayer-Buried : (l : String) → Stays Buried (call (λ _. delete_layer l))
  unfolding Stays call find_branch
  unlayer-Buried l w (b, row, gone) =
      (b, ap (find_where (has_id id)) (unlayer_branches l w) ∙ row, gone)

  gc_layers-Buried : (layers : List Layer) → Stays Buried (gc_layers e layers)
  unfolding gc_layers remove_source_layer run_zfs
  gc_layers-Buried [] = search control
  gc_layers-Buried (l ∷ rest) =
      let again = gc_layers-Buried rest in
      search (control, drive-Buried, unlayer-Buried, again) depth 12

  gc_source_volume-Buried :
      (ctx : _) (source v : String) → Stays Buried (gc_source_volume e ctx source v)
  unfolding gc_source_volume remove_source_layer run_zfs
  gc_source_volume-Buried ctx source v = search (control, drive-Buried) depth 9

  collect-Buried :
      (b : Branch) (layers : List Layer) (buried : Bool) → Stays Buried (collect e b layers buried)
  unfolding collect
  collect-Buried b layers buried = search (control, gc_layers-Buried, gc_source_volume-Buried)

  -- What a transition to destroyed that succeeds leaves
  destroyed_row :
      (c : Call) (reason : String) (db db' : Db) (u : Unit {0})
      → transition_branch c id destroyed reason db ≡ ok (u, db')
      → IsBuried id db'
  unfolding transition_branch
  destroyed_row c reason db db' u h =
      elim (transition_branch_set_lem c id destroyed reason (λ b. b) (λ b. refl) db) [
        | inl (_, lost) ↦ absurd (cc (h, lost))
        | inr (b, _, inl (_, illegal)) ↦ absurd (cc (h, illegal))
        | inr (b, _, inr (_, db1, b', fine, row, gone)) ↦
            rw (ap (committed db) (sym h ∙ fine)) (b', row, gone)
      ]

  found-IsBuried :
      (db : Db) (o : Option Branch)
      → find_branch id db ≡ o
      → is_gone e (elim o [ none ↦ err not_found | some b ↦ ok b ]) ≡ true
      → IsBuried id db
  found-IsBuried db none row h = absurd (cc)
  found-IsBuried db (some b) row h = (b, row, same_state b.state h)

  is_gone-IsBuried : (db : Db) → is_gone e (get_branch_by_id id db) ≡ true → IsBuried id db
  unfolding get_branch_by_id
  is_gone-IsBuried db h = found-IsBuried db (find_branch id db) refl h

  lost-Grants :
      (b : Branch) (f : Failure) (w : World e)
      → b.id ≡ id
      → Grants (λ _ v. Buried v) (lost_to_another e b f) w
  unfolding Grants look ◌>>=◌ pure raise
  lost-Grants b (registry_error (illegal_transition entity from to)) w mine =
      elim (Bool-cases (is_gone e (get_branch_by_id b.id w.db))) [
        | inl gone ↦ rw gone (is_gone-IsBuried w.db (rw mine at gone))
        | inr here ↦ rw here tt
      ]
  lost-Grants b f w mine = tt

  bury-Grants : (b : Branch) (w : World e) → b.id ≡ id → Grants (λ _ v. Buried v) (bury e b) w
  unfolding bury
  bury-Grants b w mine =
      rescue-Grants _ _ _ w
        (bind-Grants (λ _ v. Buried v) (λ _ v. Buried v) _ _ w
          (rw mine (
            call-Grants (λ _ v. Buried v) (λ c. transition_branch c id destroyed "") w
              λ u db v done_so same.
                rw same (destroyed_row (e.clock w.ticks) "" w.db db u done_so)))
          (λ u v h. pure-Grants (λ _ v. Buried v) true v h))
        (λ f v. lost-Grants b f v mine)

  collect-Grants :
      (b : Branch) (layers : List Layer) (buried : Bool) (w : World e)
      → Buried w
      → Grants (λ _ v. Buried v) (collect e b layers buried) w
  unfolding Grants Stays
  collect-Grants b layers buried w h =
      either_way (collect e b layers buried w).0 (collect e b layers buried w).1
        (collect-Buried b layers buried w h)
    where
      either_way : (o : Outcome (Unit {0})) (v : World e) → Buried v → Granted (λ _ k. Buried k) o v
      either_way (done a) v k = k
      either_way (failed f) v k = tt

  read_row :
      (name : String) (b : Branch) (w : World e)
      → get_branch_by_name name w.db ≡ ok b
      → Grants {e = e} (λ x _. x ≡ b) (ask (get_branch_by_name name)) w
  unfolding Grants ask
  read_row name b w row = rw row refl

  -- What is left of a destroy once the row is read
  destroy_rest-Grants :
      (name : String) (b : Branch) (w : World e)
      → get_branch_by_name name w.db ≡ ok b
      → b.id ≡ id
      → Grants (λ _ v. Buried v) (destroy_branch e name) w
  unfolding destroy_branch
  destroy_rest-Grants name b w row mine =
      bind-Grants (λ x _. x ≡ b) (λ _ v. Buried v) _ _ w (read_row name b w row)
        λ x w1 same.
          bind-Grants (λ _ _. Unit {0}) (λ _ v. Buried v) _ _ w1 (any-Grants _ w1)
            λ _ w2 _.
              bind-Grants (λ _ _. Unit {0}) (λ _ v. Buried v) _ _ w2 (any-Grants _ w2)
                λ layers w3 _.
                  bind-Grants (λ _ _. Unit {0}) (λ _ v. Buried v) _ _ w3 (any-Grants _ w3)
                    λ _ w4 _.
                      bind-Grants (λ _ _. Unit {0}) (λ _ v. Buried v) _ _ w4 (any-Grants _ w4)
                        λ _ w5 _.
                          bind-Grants (λ _ v. Buried v) (λ _ v. Buried v) _ _ w5
                            (bury-Grants x w5 (ap (λ k. k.id) same ∙ mine))
                            λ buried w6 h. collect-Grants x layers buried w6 h

Granted-done :
    (e : Engine) (id : String) (o : Outcome (Unit {0})) (w : World e)
    → o ≡ done tt
    → Granted (λ _ v. IsBuried id v.db) o w
    → IsBuried id w.db
Granted-done e id (done a) w fine h = h
Granted-done e id (failed f) w fine h = absurd (cc)

-- A destroy that ends well leaves the row that had the name destroyed, whether this call or a concurrent
-- one wrote the tombstone, and whatever the collection after it came to.
pub destroy_branch-IsBuried :
    (e : Engine) (name : String) (b : Branch) (w : World e)
    → get_branch_by_name name w.db ≡ ok b
    → (destroy_branch e name w).0 ≡ done tt
    → IsBuried b.id (destroy_branch e name w).1.db
unfolding Grants
destroy_branch-IsBuried e name b w row fine =
    Granted-done e b.id (destroy_branch e name w).0 (destroy_branch e name w).1 fine
      (destroy_rest-Grants e b.id name b w row refl)
