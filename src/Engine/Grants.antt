-- ===== src/Engine/Grants.antt =====
-- What holds of the value and the world of an action that ends well.
use pgoverlay.Base.{◌≡◌, refl}
use pgoverlay.Registry.Types.{Result, ok, err, Db}
use pgoverlay.Registry.Sql.{Call, Tx}
use pgoverlay.Engine.World.{Failure, Outcome, done, failed, Engine, World}
use pgoverlay.Engine.Actions.{Action, pure, raise, resume, ◌>>=◌, call, finish, recover, rescue}

module _ {e : Engine} where
  abbrev pub Granted : {A : Type 0} → (A → World e → Type 0) → Outcome A → World e → Type 0
  Granted Q (done a) w = Q a w
  Granted Q (failed f) w = Unit {0}

  unfoldable pub Grants : {A : Type 0} → (A → World e → Type 0) → Action e A → World e → Type 0
  Grants Q m w = Granted Q (m w).0 (m w).1

  module _ {A B : Type 0} where
    resumed :
        (Q : A → World e → Type 0) (R : B → World e → Type 0) (k : A → Action e B)
        → ((a : A) (w : World e) → Q a w → Grants R (k a) w)
        → (o : Outcome A) (w : World e) → Granted Q o w
        → Granted R (resume k o w).0 (resume k o w).1
    unfolding Grants
    resumed Q R k next (done a) w h = next a w h
    resumed Q R k next (failed f) w h = tt

    pub bind-Grants :
        (Q : A → World e → Type 0) (R : B → World e → Type 0) (m : Action e A) (k : A → Action e B)
        (w : World e)
        → Grants Q m w
        → ((a : A) (w' : World e) → Q a w' → Grants R (k a) w')
        → Grants R (m >>= k) w
    unfolding Grants ◌>>=◌
    bind-Grants Q R m k w h next = resumed Q R k next (m w).0 (m w).1 h

  module _ {A : Type 0} where
    trivially : (o : Outcome A) (w : World e) → Granted (λ _ _. Unit {0}) o w
    trivially (done a) w = tt
    trivially (failed f) w = tt

    pub any-Grants : (m : Action e A) (w : World e) → Grants (λ _ _. Unit {0}) m w
    unfolding Grants
    any-Grants m w = trivially (m w).0 (m w).1

    finished :
        (Q : A → World e → Type 0) (w : World e) (r : Result (A × Db))
        → ((a : A) (db : Db) (w' : World e) → r ≡ ok (a, db) → w'.db ≡ db → Q a w')
        → Granted Q (finish r w).0 (finish r w).1
    finished Q w (ok (a, db)) h = h a db _ refl refl
    finished Q w (err x) h = tt

    pub call-Grants :
        (Q : A → World e → Type 0) (tx : Call → Tx A) (w : World e)
        → ((a : A) (db : Db) (w' : World e)
            → tx (e.clock w.ticks) w.db ≡ ok (a, db)
            → w'.db ≡ db
            → Q a w')
        → Grants Q (call tx) w
    unfolding Grants call
    call-Grants Q tx w h = finished Q w (tx (e.clock w.ticks) w.db) h

    recovered :
        (Q : A → World e → Type 0) (k : Failure → Action e A)
        → ((f : Failure) (w : World e) → Grants Q (k f) w)
        → (o : Outcome A) (w : World e) → Granted Q o w
        → Granted Q (recover k o w).0 (recover k o w).1
    unfolding Grants
    recovered Q k other (done a) w h = h
    recovered Q k other (failed f) w h = other f w

    pub rescue-Grants :
        (Q : A → World e → Type 0) (m : Action e A) (k : Failure → Action e A) (w : World e)
        → Grants Q m w
        → ((f : Failure) (w' : World e) → Grants Q (k f) w')
        → Grants Q (rescue m k) w
    unfolding Grants rescue
    rescue-Grants Q m k w h other = recovered Q k other (m w).0 (m w).1 h

    pub raise-Grants : (Q : A → World e → Type 0) (f : Failure) (w : World e) → Grants Q (raise f) w
    unfolding Grants raise
    raise-Grants Q f w = tt

    pub pure-Grants : (Q : A → World e → Type 0) (a : A) (w : World e) → Q a w → Grants Q (pure a) w
    unfolding Grants pure
    pure-Grants Q a w h = h
