-- ===== src/Registry/Lifecycle.antt =====
-- What a run of calls does to the state of one branch.
use mathlib.Core.Path.{subst, subst₂}
use pgoverlay.Base.{
  true, false, ◌≡◌, refl, ap, ◌∙◌, inl, inr, some, List, [], ◌∷◌, String, ◌==◌, eq_iff, arith, All,
  Bool-cases, and_true,
}
use pgoverlay.Registry.Types.{
  destroyed, of_branch, StateText, Result, Branch, Transition, Db, is_branch_entity,
}
use pgoverlay.Registry.Sql.{Call, find_branch}
use pgoverlay.Registry.Updates.{Platform}
use pgoverlay.Registry.Run.{Op, apply, run}
use pgoverlay.Registry.Trail.{concerns, last_state, edge, IsStep, IsTrail, last_state-map}
use pgoverlay.Registry.Sound.{IsSound}
use pgoverlay.Registry.Sound.Moves.{last_state-find, of_branch-injective}
use pgoverlay.Registry.Sound.Runs.{apply-IsSound, run-IsSound}
use pgoverlay.Registry.Growth.{
  BeginsOwn, Extends, same, row, renamed, ChangesNameOnly-KeepsRow, audit_trail_grows,
}

-- A way along the edges of the branch machine.
pub data Way (s : StateText) : StateText → Type 0 where
  here : Way s s
  next : {t u : StateText} → Way s t → edge t u ≡ true → Way s u

Way-trans : {s t u : StateText} → Way s t → Way t u → Way s u
Way-trans p here = p
Way-trans p (next q e) = next (Way-trans p q) e

module _ (c : Call) (id : String) (other : (c.new_id == id) ≡ false) where
  step-Way :
      (s : StateText) (t : Transition) (older : List Transition)
      → BeginsOwn c t
      → IsStep t older
      → Way s (last_state id older)
      → Way s (last_state id (t ∷ older))
  unfolding last_state
  step-Way s t older own legal p = elim (Bool-cases (concerns id t)) [
    | inr e ↦ rw e p
    | inl e ↦
        rw e (next p (follows (and_true _ _ e).0 ((eq_iff t.entity_id id).0 (and_true _ _ e).1)))
  ]
    where
      follows :
          is_branch_entity t.entity ≡ true
          → t.entity_id ≡ id
          → edge (last_state id older) t.to_state ≡ true
      follows about mine = elim (legal about).1 [
        | inl begins ↦ absurd (ground (arith, other, own about begins, mine, eq_iff c.new_id id))
        | inr goes_on ↦
            let from : t.from_state ≡ last_state id older =
              goes_on ∙ ap (λ i. last_state i older) mine in
            rw (← from) (legal about).0
      ]

  Extends-Way :
      {old new : List Transition}
      → Extends c old new
      → IsTrail new
      → Way (last_state id old) (last_state id new)
  Extends-Way same legal = here
  Extends-Way {old} (row {new} t own ext) legal =
      step-Way (last_state id old) t new own legal.0 (Extends-Way ext legal.1)
  Extends-Way {old} (renamed f keep) legal =
      rw (last_state-map f (ChangesNameOnly-KeepsRow f keep) id old) here

abbrev pub AvoidsId : String → Call × Op → Type 0
AvoidsId id call = (call.0.new_id == id) ≡ false

module _ (p : Platform) (encrypt : String → Result String) (id : String) where
  run-Way :
      (db : Db) (calls : List (Call × Op))
      → All (AvoidsId id) calls
      → IsSound db
      → Way (last_state id db.transitions) (last_state id (run p encrypt db calls).transitions)
  unfolding run
  run-Way db [] avoid s = here
  run-Way db ((c, op) ∷ rest) avoid s =
      let after = apply-IsSound p encrypt c op db s in
      Way-trans (Extends-Way c id avoid.0 (audit_trail_grows p encrypt c op db) after.trail)
        (run-Way (apply p encrypt c op db) rest avoid.1 after)

  -- From a sound registry, whatever calls run, the state of a branch that is in the tables before and
  -- after them has moved along edges of the branch machine, where none of the calls drew the branch's
  -- own id for a new row.
  pub branch_follows_machine :
      (db : Db) (calls : List (Call × Op)) (b b' : Branch)
      → All (AvoidsId id) calls
      → IsSound db
      → find_branch id db ≡ some b
      → find_branch id (run p encrypt db calls) ≡ some b'
      → Way (of_branch b.state) (of_branch b'.state)
  branch_follows_machine db calls b b' avoid s e e' =
      subst₂ Way (last_state-find id db b s e)
        (last_state-find id (run p encrypt db calls) b' (run-IsSound p encrypt db calls s) e')
        (run-Way db calls avoid s)

destroyed_Way : {t : StateText} → Way (of_branch destroyed) t → t ≡ of_branch destroyed
destroyed_Way here = refl
destroyed_Way (next {t} {u} w e) = stays t u (destroyed_Way w) e
  where
    stays : (t u : StateText) → t ≡ of_branch destroyed → edge t u ≡ true → u ≡ of_branch destroyed
    stays t u was e = ground arith

module _ (p : Platform) (encrypt : String → Result String) (id : String) where
  -- From a sound registry, a destroyed branch stays destroyed whatever calls run, as long as its row
  -- is there and no call draws its id again.
  pub destroyed_is_final :
      (db : Db) (calls : List (Call × Op)) (b b' : Branch)
      → All (AvoidsId id) calls
      → IsSound db
      → find_branch id db ≡ some b
      → b.state ≡ destroyed
      → find_branch id (run p encrypt db calls) ≡ some b'
      → b'.state ≡ destroyed
  destroyed_is_final db calls b b' avoid s e gone e' = of_branch-injective b'.state destroyed (
      destroyed_Way (
        subst (λ st. Way (of_branch st) (of_branch b'.state)) gone
          (branch_follows_machine p encrypt id db calls b b' avoid s e e')))
