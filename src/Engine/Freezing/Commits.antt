-- ===== src/Engine/Freezing/Commits.antt =====
-- The commit of a freeze is its last step that can fail: what happens to the tables when freezeAndProvision
-- of internal/engine/freeze.go fails by then.
use pgoverlay.Base.{true, false, ◌≡◌, refl, ap, inl, inr, List, String, ◌==◌, eq_iff, Bool-cases}
use pgoverlay.Cow.{overlay}
use pgoverlay.Registry.Layers.{Walk, chain, missing_layer, out_of_fuel}
use pgoverlay.Registry.Queries.{volume_name_used}
use pgoverlay.Engine.Layers.{walked, read_chain}
use pgoverlay.Engine.Tidy.{Orderly}
use pgoverlay.Engine.Tidy.Fails.{fresh_reads, fresh_unused}
use pgoverlay.Registry.Types.{Result, ok, err, Source, Branch, Layer, Db}
use pgoverlay.Registry.Sql.{Call, Tx}
use pgoverlay.Engine.World.{ContainerInfo, Failure, failed, Engine, World}
use pgoverlay.Engine.Actions.{call, finish}
use pgoverlay.Engine.Instances.{start_overlay_branch}
use pgoverlay.Engine.Freeze.{start_stacked, commit_step, stack_child, swap_and_stack, freeze_parent}
use pgoverlay.Engine.Flow.{Stays, control}
use pgoverlay.Engine.Freezing.{Held, holdings}
use pgoverlay.Engine.Freezing.Steps.{
  Holds, holding, held_steps, remove-Stays, restore-Stays, stop_parent-Stays,
}
use pgoverlay.Engine.Freezing.Failing.{
  IfFailed, Spares, failing_as-Spares, on_failure-Spares, bind-Spares, read-Spares, return-Spares,
  failed_outcome,
}

-- A transaction that fails is rolled back.
module _ (e : Engine) {A : Type 0} (o : Orderly e) (before : List Held × List Layer)
    (v : String) where
  rolled_back :
      (r : Result (A × Db)) (w : World e)
      → Holds o before v w
      → IfFailed (Holds o before v) (finish r w).0 (finish r w).1
  rolled_back (ok (a, db)) w h = tt
  rolled_back (err x) w h = h

  call-Spares : (tx : Call → Tx A) → Spares (Holds o before v) (call tx)
  unfolding Spares call
  call-Spares tx w h = rolled_back (tx (e.clock w.ticks) w.db) w h

module _ (e : Engine) (o : Orderly e) (before : List Held × List Layer) (v : String) where
  module _ (child parent : Branch) (s : Source) (rw : String) where
    commit_step-Spares :
        (cid : String) (info : ContainerInfo)
        → Spares (Holds o before v) (commit_step e child parent rw cid info)
    unfolding commit_step
    commit_step-Spares cid info =
        return-Spares _ _ _ (failing_as-Spares _ _ _ (call-Spares e o before v _))

    module _ (frozen : List String) (theirs : (v == child.rw_volume) ≡ false) where
      stack_child-Spares :
          (cid : String) → Spares (Holds o before v) (stack_child e child parent s rw cid frozen)
      unfolding stack_child start_stacked start_overlay_branch
      stack_child-Spares cid = bind-Spares _ _ _ (search holding) λ _.
          on_failure-Spares _ _ _ (search (holding, remove-Stays, theirs)) (
            bind-Spares _ _ _ (search held_steps) λ _. bind-Spares _ _ _ (search held_steps) λ own.
              on_failure-Spares _ _ _ (search holding) (
                bind-Spares _ _ _ (search holding) λ _. bind-Spares _ _ _ (search held_steps) λ _.
                  bind-Spares _ _ _ (search held_steps) λ _.
                    bind-Spares _ _ _ (search held_steps) λ _.
                      bind-Spares _ _ _ (search held_steps) λ _.
                        bind-Spares _ _ _ (search held_steps)
                          λ info. return-Spares _ _ _ (commit_step-Spares cid info)))

      swap_and_stack-Spares :
          (v == rw) ≡ false → Spares (Holds o before v) (swap_and_stack e child parent s rw frozen)
      unfolding swap_and_stack start_stacked start_overlay_branch
      swap_and_stack-Spares new = bind-Spares _ _ _ (search holding) λ _.
          on_failure-Spares _ _ _ (search holding) (
            bind-Spares _ _ _ (search holding) λ _.
              on_failure-Spares _ _ _ (search (holding, remove-Stays, new)) (
                bind-Spares _ _ _ (search held_steps) λ _.
                  bind-Spares _ _ _ (search held_steps) λ own.
                    on_failure-Spares _ _ _ (search holding) (
                      bind-Spares _ _ _ (search holding) λ _.
                        bind-Spares _ _ _ (search held_steps) λ _.
                          bind-Spares _ _ _ (search holding)
                            λ _. bind-Spares _ _ _ (search holding) λ _. stack_child-Spares own)))

  walked_reads : (w : World e) (r : Walk) → Stays (λ x. x ≡ w) (walked e r)
  walked_reads w (chain layers) = search control
  walked_reads w missing_layer = search control
  walked_reads w out_of_fuel = search control

  chain_reads : (w : World e) (id : String) → Stays (λ x. x ≡ w) (read_chain e id)
  unfolding read_chain
  chain_reads w id = search (control, walked_reads)

  -- A name that a row has and one that no row has
  names_differ :
      (u : String) (db : Db)
      → volume_name_used v db ≡ true
      → volume_name_used u db ≡ false
      → (v == u) ≡ false
  names_differ u db used unused = elim (Bool-cases (v == u)) [
    | inr other ↦ other
    | inl same ↦
        let this : v ≡ u = (eq_iff v u).0 same in
        absurd (cc (ap (λ x. volume_name_used x db) this, used, unused))
  ]

  freeze_parent-Spares :
      (child parent : Branch) (s : Source) (w : World e)
      → e.planner.backend ≡ overlay
      → volume_name_used v w.db ≡ true
      → (v == child.rw_volume) ≡ false
      → Holds o before v w
      → IfFailed
          (Holds o before v)
          (freeze_parent e child parent s w).0
          (freeze_parent e child parent s w).1
  unfolding freeze_parent Spares
  freeze_parent-Spares child parent s w overlaid used theirs h =
      read-Spares _ _ _ w (chain_reads w parent.id) h λ layers _.
        read-Spares _ _ _ w (fresh_reads o w parent.name _) h λ rw fresh.
          let new = names_differ rw w.db used (fresh_unused o _ _ w rw overlaid fresh) in
          bind-Spares (Holds o before v) _ _ (stop_parent-Stays e o before v child parent s)
            (λ _.
              on_failure-Spares _ _ _ (restore-Stays e o before v parent s layers)
                (swap_and_stack-Spares child parent s rw _ theirs new))
            w h

-- Freezing a parent under a child on the overlay backend, on a host whose driver does what its interface
-- says: where it fails, up to and with its commit, every branch still has the writable volume and the base
-- layer that it had, the table of layers is as it was, and the host still has every volume that a row of
-- the registry names, such as the parent's own, but for the child's.
pub freeze_parent_spares :
    (e : Engine) (o : Orderly e) (child parent : Branch) (s : Source) (v : String) (w : World e)
    (f : Failure)
    → e.planner.backend ≡ overlay
    → volume_name_used v w.db ≡ true
    → (v == child.rw_volume) ≡ false
    → (o.stock w.runtime).volumes v ≡ true
    → (freeze_parent e child parent s w).0 ≡ failed f
    → (holdings (freeze_parent e child parent s w).1.db ≡ holdings w.db)
      × ((o.stock (freeze_parent e child parent s w).1.runtime).volumes v ≡ true)
freeze_parent_spares e o child parent s v w f overlaid used theirs here h =
    failed_outcome (Holds o (holdings w.db) v) f _ _ h (
      freeze_parent-Spares e o (holdings w.db) v child parent s w overlaid used theirs (refl, here))
