-- ===== src/Engine/Destroy.antt =====
-- internal/engine/saga.go: DestroyBranch, its teardown and the collection that follows it, and
-- ReapExpired of engine.go.
use Prim.Native.String.{◌++◌ as ◌+++◌}
use pgoverlay.Base.{
  Bool, true, false, not, ◌&&◌, ◌||◌, none, some, List, [], ◌∷◌, String, ◌==◌, nat_eq,
  if◌then◌else◌,
}
use pgoverlay.Registry.Types.{
  BranchState, creating, ready, failed, resetting, destroying, destroyed, branch_state_eq,
  illegal_transition, Result, ok, err, Source, Branch, Layer, Db,
}
use pgoverlay.Registry.Branches.{transition_branch}
use pgoverlay.Registry.Updates.{note_branch}
use pgoverlay.Registry.Layers.{count_branches_referencing_layer, delete_layer}
use pgoverlay.Registry.Queries.{
  get_branch_by_name, count_live_branches_by_volume, count_live_branches_by_rw_volume,
  count_live_branches_referencing_rw, list_expired_branches,
}
use pgoverlay.Registry.Lookups.{get_source_by_id, get_branch_by_id}
use pgoverlay.Engine.World.{Context, detached, Failure, registry_error, destroy_failed, Engine}
use pgoverlay.Engine.Actions.{
  Action, pure, raise, ◌>>=◌, ◌>>◌, ask, look, call, named, failing_as, best_effort, on_failure,
  rescue,
}
use pgoverlay.Engine.Layers.{read_chain, remove_source_layer, remove_branch_layer}
use pgoverlay.Engine.Create.{check_no_clones, remove_container}

-- What gcSourceVolume spares: the source's current volume, and one that a live branch stands on.
abbrev is_current_volume : String → Result Source → Bool
is_current_volume v (ok s) = s.volume == v
is_current_volume v (err _) = false

unfoldable pub volume_needed : String → String → Db → Bool
volume_needed source_id v db =
    v == ""
    || (is_current_volume v (get_source_by_id source_id db)
        || (not (nat_eq (count_live_branches_by_volume v db) 0)
            || not (nat_eq (count_live_branches_by_rw_volume v db) 0)))

abbrev pub state_name : BranchState → String
state_name creating = "creating"
state_name ready = "ready"
state_name failed = "failed"
state_name resetting = "resetting"
state_name destroying = "destroying"
state_name destroyed = "destroyed"

module _ (e : Engine) where
  -- gcSourceVolume
  unfoldable pub gc_source_volume : Context → String → String → Action e (Unit {0})
  gc_source_volume ctx source_id v = look (volume_needed source_id v) >>= λ needed.
      if needed then pure tt else best_effort (remove_source_layer e ctx v)

  -- gcLayers, topmost layer first: the first layer that is still referenced, or cannot go, ends it.
  unfoldable pub gc_layers : List Layer → Action e (Unit {0})
  gc_layers [] = pure tt
  gc_layers (l ∷ rest) = look (count_branches_referencing_layer l.id) >>= λ n.
      if nat_eq n 0
      then rescue
          (do
            remove_source_layer e detached l.volume
            call (λ _. delete_layer l.id)
            gc_layers rest)
          (λ _. pure tt)
      else pure tt

  abbrev pub is_guarded : Branch → Bool
  is_guarded b = not (branch_state_eq b.state ready) && not (branch_state_eq b.state failed)

  abbrev pub to_destroying : Branch → Action e (Unit {0})
  to_destroying b = call (λ c. transition_branch c b.id destroying "destroy requested")

  -- The switch on the state: a branch in a transient state is forced to failed first, and a row that is
  -- in destroying already is only noted.
  unfoldable pub begin_destroy : Branch → BranchState → Action e (Unit {0})
  begin_destroy b ready = to_destroying b
  begin_destroy b failed = to_destroying b
  begin_destroy b destroying = best_effort (call (λ c. note_branch c b.id "destroy retried"))
  begin_destroy b destroyed = pure tt
  begin_destroy b from = do
    call (λ c.
        transition_branch c b.id failed ("destroy requested: forcing stuck " +++ state_name from))
    to_destroying b

  -- teardownBranch
  unfoldable pub teardown_branch : Branch → Bool → Action e (Unit {0})
  teardown_branch b guarded = do
    named "remove container" (remove_container e detached b)
    referenced ← look (count_live_branches_referencing_rw b.name b.rw_volume)
    if guarded && not (nat_eq referenced 0)
        then pure tt
        else named "remove branch layer" (remove_branch_layer e detached b)

  abbrev pub journal_failure : Branch → Failure → Action e (Unit {0})
  journal_failure b f = best_effort (
      call (λ c.
        note_branch c b.id ("destroy failed, destroy again to retry: " +++ e.failure_reason f)))

  abbrev pub is_gone : Result Branch → Bool
  is_gone (ok b) = branch_state_eq b.state destroyed
  is_gone (err _) = false

  -- A concurrent destroy of the row may have finished first.
  abbrev pub lost_to_another : Branch → Failure → Action e Bool
  lost_to_another b (registry_error (illegal_transition entity from to)) =
      look (λ db. is_gone (get_branch_by_id b.id db)) >>= λ gone.
      if gone then pure false else raise (registry_error (illegal_transition entity from to))
  lost_to_another b f = raise f

  -- The tombstone: whether this call wrote it
  unfoldable pub bury : Branch → Action e Bool
  bury b =
      rescue (call (λ c. transition_branch c b.id destroyed "") >> pure true) (lost_to_another b)

  unfoldable pub collect : Branch → List Layer → Bool → Action e (Unit {0})
  collect b layers buried =
      if buried
      then gc_layers layers >> gc_source_volume detached b.source_id b.source_volume
      else pure tt

  -- DestroyBranch
  unfoldable pub destroy_branch : String → Action e (Unit {0})
  destroy_branch name = do
    b ← ask (get_branch_by_name name)
    check_no_clones e b
    layers ← read_chain e b.id
    begin_destroy b b.state
    failing_as (destroy_failed b.name)
        (on_failure (journal_failure b) (teardown_branch b (is_guarded b)))
    buried ← bury b
    collect b layers buried

  abbrev Reaped : Type 0
  Reaped = List String × List (String × Failure)

  -- The loop of ReapExpired: a branch that cannot be destroyed is reported and passed over.
  unfoldable pub reap_each : List Branch → Action e Reaped
  reap_each [] = pure ([], [])
  reap_each (b ∷ rest) = do
    failure ← rescue (destroy_branch b.name >> pure none) (λ f. pure (some f))
    others ← reap_each rest
    pure (elim failure [
      | none ↦ (b.name ∷ others.0, others.1)
      | some f ↦ (others.0, (b.name, f) ∷ others.1)
    ])

  -- ReapExpired
  unfoldable pub reap_expired : String → Action e Reaped
  reap_expired now = look (list_expired_branches now) >>= reap_each
