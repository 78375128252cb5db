-- ===== src/Engine/Actions.antt =====
-- The steps of internal/engine as actions: each reads and writes the registry's tables and the runtime,
-- and gives a value or fails. What a failed step has changed stays changed.
use pgoverlay.Base.{ℕ, suc, Bool, List, [], ◌∷◌, String, if◌then◌else◌}
use pgoverlay.Registry.Types.{Result, ok, err, Db}
use pgoverlay.Registry.Sql.{Call, Tx}
use pgoverlay.Engine.World.{
  Reply, reply, refused, Failure, registry_error, driver_error, step, Outcome, done, failed, Engine,
  World,
}

abbrev pub Action : Engine → Type 0 → Type 0
Action e A = World e → Outcome A × World e

abbrev pub given : {A : Type 0} → Result A → Outcome A
given (ok a) = done a
given (err x) = failed (registry_error x)

abbrev pub answered : {A : Type 0} → Reply A → Outcome A
answered (reply a) = done a
answered (refused x) = failed (driver_error x)

abbrev pub change : {A : Type 0} → (Failure → Failure) → Outcome A → Outcome A
change g (done a) = done a
change g (failed f) = failed (g f)

module _ {e : Engine} where
  unfoldable pub pure : {A : Type 0} → A → Action e A
  pure a w = (done a, w)

  unfoldable pub raise : {A : Type 0} → Failure → Action e A
  raise f w = (failed f, w)

  abbrev pub resume : {A B : Type 0} → (A → Action e B) → Outcome A → Action e B
  resume k (done a) w = k a w
  resume k (failed f) w = (failed f, w)

  infixl 5 ◌>>=◌ ◌>>◌
  unfoldable pub ◌>>=◌ : {A B : Type 0} → Action e A → (A → Action e B) → Action e B
  ◌>>=◌ m k w = let r = m w in resume k r.0 r.1

  abbrev pub ◌>>◌ : {A B : Type 0} → Action e A → Action e B → Action e B
  m >> k = m >>= λ _. k

  unfoldable pub require : Bool → Failure → Action e (Unit {0})
  require b f w = (if b then done tt else failed f, w)

  -- A read of the registry
  unfoldable pub ask : {A : Type 0} → (Db → Result A) → Action e A
  ask q w = (given (q w.db), w)

  unfoldable pub look : {A : Type 0} → (Db → A) → Action e A
  look q w = (done (q w.db), w)

  abbrev pub finish : {A : Type 0} → Result (A × Db) → World e → Outcome A × World e
  finish (ok (a, db)) w = (done a, record w { db = db; ticks = suc w.ticks })
  finish (err x) w = (failed (registry_error x), record w { ticks = suc w.ticks })

  -- A call that writes to the registry: it commits, or leaves the tables as they are.
  unfoldable pub call : {A : Type 0} → (Call → Tx A) → Action e A
  call tx w = finish (tx (e.clock w.ticks) w.db) w

  -- A call of the runtime driver
  unfoldable pub drive : {A : Type 0} → (e.Runtime → Reply A × e.Runtime) → Action e A
  drive f w = let r = f w.runtime in (answered r.0, record w { runtime = r.1 })

  -- A failure that passes by is wrapped.
  unfoldable pub failing_as : {A : Type 0} → (Failure → Failure) → Action e A → Action e A
  failing_as g m w = let r = m w in (change g r.0, r.1)

  abbrev pub named : {A : Type 0} → String → Action e A → Action e A
  named s m = failing_as (step s) m

  -- logCompensationErr: the step's failure is only logged.
  unfoldable pub best_effort : {A : Type 0} → Action e A → Action e (Unit {0})
  best_effort m w = let r = m w in (done tt, r.1)

  abbrev pub recover : {A : Type 0} → (Failure → Action e A) → Outcome A → Action e A
  recover k (done a) w = (done a, w)
  recover k (failed f) w = k f w

  -- A failure of `m` is answered by another action.
  unfoldable pub rescue : {A : Type 0} → Action e A → (Failure → Action e A) → Action e A
  rescue m k w = let r = m w in recover k r.0 r.1

  -- What is read from outside, by the number of registry calls so far
  unfoldable pub at_tick : {A : Type 0} → (ℕ → A) → Action e A
  at_tick f w = (done (f w.ticks), w)

  -- What the runtime shows without a call that changes it
  unfoldable pub peek : {A : Type 0} → (e.Runtime → A) → Action e A
  peek f w = (done (f w.runtime), w)

  abbrev pub clean_up : {A : Type 0} → (Failure → Action e (Unit {0})) → Outcome A → Action e A
  clean_up undo (done a) w = (done a, w)
  clean_up undo (failed f) w = let r = undo f w in (failed f, r.1)

  -- A failure of `m` runs the compensation and goes on: nested, these are the saga's undo stack.
  unfoldable pub on_failure :
      {A : Type 0} → (Failure → Action e (Unit {0})) → Action e A → Action e A
  on_failure undo m w = let r = m w in clean_up undo r.0 r.1

  abbrev pub undoing : {A : Type 0} → Action e (Unit {0}) → Action e A → Action e A
  undoing undo m = on_failure (λ _. undo) m

  -- The steps of a loop, in order, up to the first that fails
  unfoldable pub for_each : {X : Type 0} → (X → Action e (Unit {0})) → List X → Action e (Unit {0})
  for_each f [] = pure tt
  for_each f (x ∷ rest) = f x >> for_each f rest
