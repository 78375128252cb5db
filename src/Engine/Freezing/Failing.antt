-- ===== src/Engine/Freezing/Failing.antt =====
-- What an action has kept where it fails.
use pgoverlay.Base.{◌≡◌, refl}
use pgoverlay.Engine.World.{Failure, Outcome, done, failed, Engine, World}
use pgoverlay.Engine.Actions.{Action, pure, ◌>>=◌, resume, failing_as, change, on_failure, clean_up}
use pgoverlay.Engine.Flow.{Stays}

module _ {e : Engine} (P : World e → Type 0) where
  abbrev pub IfFailed : {A : Type 0} → Outcome A → World e → Type 0
  IfFailed (done a) w = Unit {0}
  IfFailed (failed f) w = P w

  -- Where the action fails it has kept the predicate.
  unfoldable pub Spares : {A : Type 0} → Action e A → Type 0
  Spares m = (w : World e) → P w → IfFailed (m w).0 (m w).1

  module _ {A : Type 0} where
    kept_anyway : (r : Outcome A) (w : World e) → P w → IfFailed r w
    kept_anyway (done a) w h = tt
    kept_anyway (failed f) w h = h

    renamed :
        (g : Failure → Failure) (r : Outcome A) (w : World e)
        → IfFailed r w
        → IfFailed (change g r) w
    renamed g (done a) w h = tt
    renamed g (failed f) w h = h

    pub failing_as-Spares :
        (g : Failure → Failure) (m : Action e A) → Spares m → Spares (failing_as g m)
    unfolding Spares failing_as
    failing_as-Spares g m k w h = renamed g (m w).0 (m w).1 (k w h)

    undone :
        (undo : Failure → Action e (Unit {0}))
        → ((f : Failure) → Stays P (undo f))
        → (r : Outcome A) (w : World e) → IfFailed r w
        → IfFailed (clean_up undo r w).0 (clean_up undo r w).1
    unfolding Stays
    undone undo u (done a) w h = tt
    undone undo u (failed f) w h = u f w h

    pub on_failure-Spares :
        (undo : Failure → Action e (Unit {0})) (m : Action e A)
        → ((f : Failure) → Stays P (undo f))
        → Spares m
        → Spares (on_failure undo m)
    unfolding Spares on_failure
    on_failure-Spares undo m u k w h = undone undo u (m w).0 (m w).1 (k w h)

    module _ {B : Type 0} where
      resumed :
          (k : A → Action e B)
          → ((a : A) → Spares (k a))
          → (r : Outcome A) (w : World e) → P w
          → IfFailed (resume k r w).0 (resume k r w).1
      unfolding Spares
      resumed k l (done a) w h = l a w h
      resumed k l (failed f) w h = h

      pub bind-Spares :
          (m : Action e A) (k : A → Action e B)
          → Stays P m
          → ((a : A) → Spares (k a))
          → Spares (m >>= k)
      unfolding Spares Stays ◌>>=◌
      bind-Spares m k stays l w h = resumed k l (m w).0 (m w).1 (stays w h)

      given_back :
          (g : A → B) (r : Outcome A) (w : World e)
          → IfFailed r w
          → IfFailed (resume (λ a. pure (g a)) r w).0 (resume (λ a. pure (g a)) r w).1
      unfolding pure
      given_back g (done a) w h = tt
      given_back g (failed f) w h = h

      handed_on :
          (k : A → Action e B) (w : World e) (r : Outcome A) (w' : World e)
          → w' ≡ w
          → P w
          → ((a : A) → r ≡ done a → IfFailed (k a w).0 (k a w).1)
          → IfFailed (resume k r w').0 (resume k r w').1
      handed_on k w (done a) w' same h l = rw same (l a refl)
      handed_on k w (failed f) w' same h l = rw same h

      -- A part that reads only, with what it gave
      pub read-Spares :
          (m : Action e A) (k : A → Action e B) (w : World e)
          → Stays (λ x. x ≡ w) m
          → P w
          → ((a : A) → (m w).0 ≡ done a → IfFailed (k a w).0 (k a w).1)
          → IfFailed ((m >>= k) w).0 ((m >>= k) w).1
      unfolding Stays ◌>>=◌
      read-Spares m k w reads h l = handed_on k w (m w).0 (m w).1 (reads w refl) h l

      -- What follows the last step that can fail
      pub return-Spares : (m : Action e A) (g : A → B) → Spares m → Spares (m >>= λ a. pure (g a))
      unfolding Spares ◌>>=◌
      return-Spares m g k w h = given_back g (m w).0 (m w).1 (k w h)

pub failed_outcome :
    {e : Engine} {A : Type 0} (P : World e → Type 0) (f : Failure) (r : Outcome A) (w : World e)
    → r ≡ failed f
    → IfFailed P r w
    → P w
failed_outcome P f (done a) w h k = absurd (cc)
failed_outcome P f (failed x) w h k = k
