-- ===== src/Engine/Flow.antt =====
-- A predicate on the world that each part of an action keeps, the whole action keeps, on whatever way
-- through it a failure takes.
use pgoverlay.Base.{ℕ, Bool, true, false, List, [], ◌∷◌, if◌then◌else◌}
use pgoverlay.Registry.Types.{Result, Db}
use pgoverlay.Engine.World.{Failure, Outcome, done, failed, Engine, World}
use pgoverlay.Engine.Actions.{
  Action, pure, raise, resume, ◌>>=◌, require, ask, look, failing_as, best_effort, at_tick,
  on_failure, clean_up, rescue, recover, peek, for_each,
}

module _ {e : Engine} (P : World e → Type 0) where
  unfoldable pub Stays : {A : Type 0} → Action e A → Type 0
  Stays m = (w : World e) → P w → P (m w).1

  pub raise-Stays : (A : Type 0) (f : Failure) → Stays {A = A} (raise f)
  unfolding Stays raise
  raise-Stays A f w h = h

  module _ {A : Type 0} where
    pub pure-Stays : (a : A) → Stays (pure a)
    unfolding Stays pure
    pure-Stays a w h = h

    pub ask-Stays : (q : Db → Result A) → Stays (ask q)
    unfolding Stays ask
    ask-Stays q w h = h

    pub look-Stays : (q : Db → A) → Stays (look q)
    unfolding Stays look
    look-Stays q w h = h

    pub peek-Stays : (q : e.Runtime → A) → Stays (peek q)
    unfolding Stays peek
    peek-Stays q w h = h

    pub at_tick-Stays : (q : ℕ → A) → Stays (at_tick q)
    unfolding Stays at_tick
    at_tick-Stays q w h = h

    pub failing_as-Stays :
        (g : Failure → Failure) (m : Action e A) → Stays m → Stays (failing_as g m)
    unfolding Stays failing_as
    failing_as-Stays g m k w h = k w h

    pub best_effort-Stays : (m : Action e A) → Stays m → Stays (best_effort m)
    unfolding Stays best_effort
    best_effort-Stays m k w h = k w h

    cleaned :
        (undo : Failure → Action e (Unit {0}))
        → ((f : Failure) → Stays (undo f))
        → (o : Outcome A) (w : World e) → P w
        → P (clean_up undo o w).1
    unfolding Stays
    cleaned undo k (done a) w h = h
    cleaned undo k (failed f) w h = k f w h

    pub on_failure-Stays :
        (undo : Failure → Action e (Unit {0})) (m : Action e A)
        → ((f : Failure) → Stays (undo f))
        → Stays m
        → Stays (on_failure undo m)
    unfolding Stays on_failure
    on_failure-Stays undo m u k w h = cleaned undo u (m w).0 (m w).1 (k w h)

    recovered :
        (f : Failure → Action e A)
        → ((x : Failure) → Stays (f x))
        → (o : Outcome A) (w : World e) → P w
        → P (recover f o w).1
    unfolding Stays
    recovered f k (done a) w h = h
    recovered f k (failed x) w h = k x w h

    pub rescue-Stays :
        (m : Action e A) (f : Failure → Action e A)
        → Stays m
        → ((x : Failure) → Stays (f x))
        → Stays (rescue m f)
    unfolding Stays rescue
    rescue-Stays m f k u w h = recovered f u (m w).0 (m w).1 (k w h)

    pub if-Stays : (b : Bool) (m n : Action e A) → Stays m → Stays n → Stays (if b then m else n)
    if-Stays true m n k l = k
    if-Stays false m n k l = l

    module _ {B : Type 0} where
      resumed :
          (f : A → Action e B)
          → ((a : A) → Stays (f a))
          → (o : Outcome A) (w : World e) → P w
          → P (resume f o w).1
      unfolding Stays
      resumed f k (done a) w h = k a w h
      resumed f k (failed x) w h = h

      pub bind-Stays :
          (m : Action e A) (f : A → Action e B)
          → Stays m
          → ((a : A) → Stays (f a))
          → Stays (m >>= f)
      unfolding Stays ◌>>=◌
      bind-Stays m f k l w h = resumed f l (m w).0 (m w).1 (k w h)

  pub require-Stays : (b : Bool) (f : Failure) → Stays (require {e = e} b f)
  unfolding Stays require
  require-Stays b f w h = h

  pub for_each-Stays :
      {X : Type 0} (f : X → Action e (Unit {0})) (xs : List X)
      → ((x : X) → Stays (f x))
      → Stays (for_each f xs)
  unfolding for_each
  for_each-Stays f [] k = pure-Stays tt
  for_each-Stays f (x ∷ rest) k = bind-Stays _ _ (k x) λ _. for_each-Stays f rest k

pub ruleset control = (
  pure-Stays, raise-Stays, ask-Stays, look-Stays, peek-Stays, at_tick-Stays, failing_as-Stays,
  best_effort-Stays, on_failure-Stays, rescue-Stays, if-Stays, bind-Stays, require-Stays,
  for_each-Stays,
)
