-- ===== src/Engine/Checks.antt =====
-- Checks that come before an action's first change, and what they have found when it goes on.
use pgoverlay.Base.{Bool, true, false, ◌≡◌, refl, ◌⊎◌, inl, inr, String}
use pgoverlay.Registry.Types.{Result, ok, err, Db}
use pgoverlay.Engine.World.{Failure, step, Outcome, done, failed, Engine, World}
use pgoverlay.Engine.Actions.{
  Action, change, failing_as, named, ◌>>=◌, resume, given, require, ask, look,
}
use pgoverlay.Engine.Flow.{Stays}

module _ {e : Engine} (C : Type 0) where
  -- The action leaves the world as it is, or the condition holds.
  unfoldable pub Needs : {A : Type 0} → Action e A → World e → Type 0
  Needs m w = ((m w).1 ≡ w) ⊎ C

  module _ {A : Type 0} where
    module _ {B : Type 0} where
      resumed :
          (k : A → Action e B) (w : World e) (r : Outcome A) (w' : World e)
          → w' ≡ w
          → ((a : A) → r ≡ done a → Needs (k a) w)
          → ((resume k r w').1 ≡ w) ⊎ C
      unfolding Needs
      resumed k w (done a) w' same h = rw same (h a refl)
      resumed k w (failed f) w' same h = inl same

      -- A check, with what it gave
      pub check-Needs :
          (m : Action e A) (k : A → Action e B) (w : World e)
          → Stays (λ v. v ≡ w) m
          → ((a : A) → (m w).0 ≡ done a → Needs (k a) w)
          → Needs (m >>= k) w
      unfolding Needs ◌>>=◌ Stays
      check-Needs m k w reads h = resumed k w (m w).0 (m w).1 (reads w refl) h

      read_after :
          (q : Db → Result B) (r : Outcome A) (w w' : World e)
          → w' ≡ w
          → (resume (λ _. ask q) r w').1 ≡ w
      unfolding ask
      read_after q (done a) w w' same = same
      read_after q (failed f) w w' same = same

      -- A read at the end
      pub last_read-Needs :
          (m : Action e A) (q : Db → Result B) (w : World e)
          → Needs m w
          → Needs (m >>= λ _. ask q) w
      unfolding Needs ◌>>=◌
      last_read-Needs m q w (inl same) = inl (read_after q (m w).0 w (m w).1 same)
      last_read-Needs m q w (inr c) = inr c

given_ok : {A : Type 0} (r : Result A) (a : A) → given r ≡ done a → r ≡ ok a
given_ok (ok x) a h = cc
given_ok (err x) a h = absurd (cc)

done-injective : {A : Type 0} {a b : A} → done a ≡ done b → a ≡ b
done-injective h = cc

renamed :
    {A : Type 0} (g : Failure → Failure) (r : Outcome A) (a : A) → change g r ≡ done a → r ≡ done a
renamed g (done x) a h = h
renamed g (failed f) a h = absurd (cc)

module _ {e : Engine} where
  module _ {A B : Type 0} where
    resumed_done :
        (k : A → Action e B) (w : World e) (b : B) (r : Outcome A) (w' : World e)
        → w' ≡ w
        → (resume k r w').0 ≡ done b
        → (a : A) × (r ≡ done a) × ((k a w).0 ≡ done b)
    resumed_done k w b (done a) w' same h = (a, refl, rw same at h)
    resumed_done k w b (failed f) w' same h = absurd (cc)

    -- What two checks in a row gave
    pub bind_done :
        (m : Action e A) (k : A → Action e B) (w : World e) (b : B)
        → Stays (λ v. v ≡ w) m
        → ((m >>= k) w).0 ≡ done b
        → (a : A) × ((m w).0 ≡ done a) × ((k a w).0 ≡ done b)
    unfolding ◌>>=◌ Stays
    bind_done m k w b reads h = resumed_done k w b (m w).0 (m w).1 (reads w refl) h

  pub looked : {A : Type 0} (q : Db → A) (w : World e) (a : A) → (look q w).0 ≡ done a → q w.db ≡ a
  unfolding look
  looked q w a h = done-injective h

  pub required : (b : Bool) (f : Failure) (w : World e) → (require b f w).0 ≡ done tt → b ≡ true
  unfolding require
  required true f w h = refl
  required false f w h = absurd (cc)

  pub asked :
      {A : Type 0} (q : Db → Result A) (w : World e) (a : A) → (ask q w).0 ≡ done a → q w.db ≡ ok a
  unfolding ask
  asked q w a h = given_ok (q w.db) a h

  pub named_done :
      {A : Type 0} (s : String) (m : Action e A) (w : World e) (a : A)
      → (named s m w).0 ≡ done a
      → (m w).0 ≡ done a
  unfolding failing_as
  named_done s m w a h = renamed (step s) (m w).0 a h
