-- ===== src/Engine/Tidy/Parts.antt =====
-- How the parts of an action that fails leave the stock of the host.
use pgoverlay.Base.{Bool, true, ◌⊎◌, inl, inr, ◌≡◌, refl, ap, ◌∙◌}
use pgoverlay.Registry.Types.{ok, err, Db, Result}
use pgoverlay.Registry.Sql.{Call, Tx}
use pgoverlay.Engine.World.{Failure, Outcome, done, failed, Engine, World}
use pgoverlay.Engine.Actions.{
  Action, ◌>>=◌, call, finish, change, failing_as, on_failure, clean_up, resume,
}
use pgoverlay.Engine.Flow.{Stays}
use pgoverlay.Engine.Tidy.{Stock, Orderly}

module _ {e : Engine} (o : Orderly e) where
  abbrev pub stock_of : World e → Stock
  stock_of w = o.stock w.runtime

  abbrev pub missed_of : World e → Bool
  missed_of w = o.missed w.runtime

  abbrev pub LeftAfter : {A : Type 0} → Stock → Outcome A → World e → Type 0
  LeftAfter before (done a) w = Unit {0}
  LeftAfter before (failed f) w = (missed_of w ≡ true) ⊎ (stock_of w ≡ before)

  -- If the action fails, the stock is `before`, but for what a refused removal has left.
  unfoldable pub LeftAs : {A : Type 0} → Stock → Action e A → World e → Type 0
  LeftAs before m w = LeftAfter before (m w).0 (m w).1

  -- A compensation does `g` to the stock, if no removal is refused.
  abbrev pub Undoes : (Stock → Stock) → (Failure → Action e (Unit {0})) → Type 0
  Undoes g undo =
      (f : Failure) (w : World e)
      → (missed_of w ≡ true → missed_of (undo f w).1 ≡ true)
        × ((missed_of (undo f w).1 ≡ true) ⊎ (stock_of (undo f w).1 ≡ g (stock_of w)))

  -- An action keeps the stock on every way through it.
  abbrev pub Plain : {A : Type 0} → Action e A → Type 0
  Plain m = (s : Stock) → Stays (λ w. stock_of w ≡ s) m

  module _ {A : Type 0} where
    unchanged :
        (before : Stock) (r : Outcome A) (w : World e) → stock_of w ≡ before → LeftAfter before r w
    unchanged before (done a) w h = tt
    unchanged before (failed f) w h = inr h

    pub Plain-LeftAs : (m : Action e A) (w : World e) → Plain m → LeftAs (stock_of w) m w
    unfolding LeftAs Stays
    Plain-LeftAs m w h = unchanged (stock_of w) (m w).0 (m w).1 (h (stock_of w) w refl)

    renamed-LeftAs :
        (g : Failure → Failure) (before : Stock) (r : Outcome A) (w : World e)
        → LeftAfter before r w
        → LeftAfter before (change g r) w
    renamed-LeftAs g before (done a) w h = h
    renamed-LeftAs g before (failed f) w h = h

    pub failing_as-LeftAs :
        (g : Failure → Failure) (m : Action e A) (before : Stock) (w : World e)
        → LeftAs before m w
        → LeftAs before (failing_as g m) w
    unfolding LeftAs failing_as
    failing_as-LeftAs g m before w h = renamed-LeftAs g before (m w).0 (m w).1 h

    undone :
        (undo : Failure → Action e (Unit {0})) (g : Stock → Stock) (before mid : Stock)
        → Undoes g undo
        → g mid ≡ before
        → (r : Outcome A) (w : World e) → LeftAfter mid r w
        → LeftAfter before (clean_up undo r w).0 (clean_up undo r w).1
    undone undo g before mid does back (done a) w h = tt
    undone undo g before mid does back (failed f) w (inl m) = inl ((does f w).0 m)
    undone undo g before mid does back (failed f) w (inr h) = elim (does f w).1 [
      | inl m ↦ inl m
      | inr same ↦ inr (same ∙ ap g h ∙ back)
    ]

    -- The compensation takes back what stood in between.
    pub on_failure-LeftAs :
        (undo : Failure → Action e (Unit {0})) (m : Action e A) (g : Stock → Stock)
        (before mid : Stock) (w : World e)
        → Undoes g undo
        → g mid ≡ before
        → LeftAs mid m w
        → LeftAs before (on_failure undo m) w
    unfolding LeftAs on_failure
    on_failure-LeftAs undo m g before mid w does back h =
        undone undo g before mid does back (m w).0 (m w).1 h

    module _ {B : Type 0} where
      resumed_left :
          (k : A → Action e B) (before : Stock) (r : Outcome A) (w : World e)
          → stock_of w ≡ before
          → ((a : A) → LeftAs before (k a) w)
          → LeftAfter before (resume k r w).0 (resume k r w).1
      unfolding LeftAs
      resumed_left k before (done a) w h l = l a
      resumed_left k before (failed f) w h l = inr h

      pub bind-LeftAs :
          (m : Action e A) (k : A → Action e B) (w : World e)
          → Plain m
          → ((a : A) (w' : World e) → stock_of w' ≡ stock_of w → LeftAs (stock_of w) (k a) w')
          → LeftAs (stock_of w) (m >>= k) w
      unfolding LeftAs ◌>>=◌ Stays
      bind-LeftAs m k w plain l =
          let kept = plain (stock_of w) w refl in
          resumed_left k (stock_of w) (m w).0 (m w).1 kept λ a. l a (m w).1 kept

      read_on :
          (before : Stock) (k : A → Action e B) (w : World e) (r : Outcome A) (w' : World e)
          → w' ≡ w
          → stock_of w ≡ before
          → ((a : A) → r ≡ done a → LeftAs before (k a) w)
          → LeftAfter before (resume k r w').0 (resume k r w').1
      unfolding LeftAs
      read_on before k w (done a) w' same h l = rw same (l a refl)
      read_on before k w (failed f) w' same h l = inr (ap (λ v. stock_of v) same ∙ h)

      -- A part that reads only
      pub read-LeftAs :
          (before : Stock) (m : Action e A) (k : A → Action e B) (w : World e)
          → Stays (λ v. v ≡ w) m
          → stock_of w ≡ before
          → ((a : A) → (m w).0 ≡ done a → LeftAs before (k a) w)
          → LeftAs before (m >>= k) w
      unfolding LeftAs ◌>>=◌ Stays
      read-LeftAs before m k w reads h l = read_on before k w (m w).0 (m w).1 (reads w refl) h l

      called :
          (before : Stock) (k : A → Action e B) (w : World e) (r : Result (A × Db))
          → stock_of w ≡ before
          → ((a : A) (db : Db) (w' : World e)
              → r ≡ ok (a, db)
              → stock_of w' ≡ before
              → LeftAs before (k a) w')
          → LeftAfter before
              (resume k (finish r w).0 (finish r w).1).0
              (resume k (finish r w).0 (finish r w).1).1
      unfolding LeftAs
      called before k w (ok (a, db)) h l = l a db _ refl h
      called before k w (err x) h l = inr h

      -- A registry call, with what it gave
      pub call-LeftAs :
          (before : Stock) (tx : Call → Tx A) (k : A → Action e B) (w : World e)
          → stock_of w ≡ before
          → ((a : A) (db : Db) (w' : World e)
              → tx (e.clock w.ticks) w.db ≡ ok (a, db)
              → stock_of w' ≡ before
              → LeftAs before (k a) w')
          → LeftAs before (call tx >>= k) w
      unfolding LeftAs ◌>>=◌ call
      call-LeftAs before tx k w h l = called before k w (tx (e.clock w.ticks) w.db) h l

  pub Plain-does :
      {A : Type 0} (m : Action e A) (w : World e) → Plain m → stock_of (m w).1 ≡ stock_of w
  unfolding Stays
  Plain-does m w plain = plain (stock_of w) w refl
