-- ===== src/Engine/Tidy/Driver.antt =====
-- The calls of an orderly driver, with the compensations that take them back.
use pgoverlay.Base.{false, ◌≡◌, refl, ap, ◌∙◌, ◌⊎◌, inl, inr, String}
use pgoverlay.Registry.Types.{ok, err}
use pgoverlay.Registry.Sql.{Call, Tx}
use pgoverlay.Engine.World.{
  Context, detached, DriverError, Labels, Reply, reply, refused, Failure, HelperSpec, BranchSpec,
  Engine, World,
}
use pgoverlay.Engine.Actions.{
  Action, ◌>>=◌, call, finish, drive, failing_as, best_effort, on_failure,
}
use pgoverlay.Engine.Flow.{Stays}
use pgoverlay.Engine.Tidy.{stock_volume, unstock_volume, unstock_container, without-with, Orderly}
use pgoverlay.Engine.Tidy.Parts.{stock_of, Undoes, LeftAs, Plain, Plain-LeftAs, on_failure-LeftAs}

pub reply_cases :
    {A : Type 0} (r : Reply A) → ((a : A) × (r ≡ reply a)) ⊎ ((x : DriverError) × (r ≡ refused x))
reply_cases (reply a) = inl (a, refl)
reply_cases (refused x) = inr (x, refl)

module _ {e : Engine} (o : Orderly e) where
  pub drive-Plain :
      {A : Type 0} (f : e.Runtime → Reply A × e.Runtime)
      → ((r : e.Runtime) → o.stock (f r).1 ≡ o.stock r)
      → Plain o (drive f)
  unfolding Stays drive
  drive-Plain f keeps s w h = keeps w.runtime ∙ h

  finish_runtime : {A : Type 0} (r : _) (w : World e) → (finish {A = A} r w).1.runtime ≡ w.runtime
  finish_runtime (ok (a, db)) w = refl
  finish_runtime (err x) w = refl

  pub call-Plain : {A : Type 0} (tx : Call → Tx A) → Plain o (call tx)
  unfolding Stays call
  call-Plain tx s w h = ap o.stock (finish_runtime (tx (e.clock w.ticks) w.db) w) ∙ h

  pub helper-Plain : (ctx : Context) (spec : HelperSpec) → Plain o (drive (e.run_helper ctx spec))
  helper-Plain ctx spec = drive-Plain (e.run_helper ctx spec) (o.helper_keeps ctx spec)

  pub exec-Plain : (ctx : Context) (cid : String) (cmd : _) → Plain o (drive (e.exec ctx cid cmd))
  exec-Plain ctx cid cmd = drive-Plain (e.exec ctx cid cmd) (o.exec_keeps ctx cid cmd)

  pub inspect-Plain : (ctx : Context) (cid : String) → Plain o (drive (e.inspect ctx cid))
  inspect-Plain ctx cid = drive-Plain (e.inspect ctx cid) (o.inspect_keeps ctx cid)

  -- Registry calls leave the runtime alone.
  pub call-Calm :
      {A : Type 0} (r : e.Runtime) (tx : Call → Tx A) → Stays (λ w. w.runtime ≡ r) (call {e = e} tx)
  unfolding Stays call
  call-Calm r tx w h = finish_runtime (tx (e.clock w.ticks) w.db) w ∙ h

  taken_away :
      (v : String)
      → Undoes o (unstock_volume v) (λ _. best_effort (drive (e.remove_volume detached v)))
  unfolding best_effort drive
  taken_away v f w = elim (reply_cases (e.remove_volume detached v w.runtime).0) [
    | inl (a, answered) ↦
        let (gone, calm) = o.remove_removes detached v w.runtime answered in
        ((λ m. calm ∙ m), inr gone)
    | inr (x, lost) ↦
        let noted = (o.remove_refused detached v w.runtime x lost).1 in ((λ m. noted), inl noted)
  ]

  stopped :
      (cid : String)
      → Undoes o (unstock_container cid) (λ _. best_effort (drive (e.stop_remove detached cid)))
  unfolding best_effort drive
  stopped cid f w = elim (reply_cases (e.stop_remove detached cid w.runtime).0) [
    | inl (a, answered) ↦
        let (gone, calm) = o.stop_removes detached cid w.runtime answered in
        ((λ m. calm ∙ m), inr gone)
    | inr (x, lost) ↦
        let noted = (o.stop_refused detached cid w.runtime x lost).1 in ((λ m. noted), inl noted)
  ]

  module _ {A : Type 0} where
    -- A volume that is made for `rest` does not outlive its failure.
    pub create-LeftAs :
        (g : Failure → Failure) (v : String) (labels : Labels) (ctx : Context) (rest : Action e A)
        (w : World e)
        → (stock_of o w).volumes v ≡ false
        → ((w' : World e)
            → stock_of o w' ≡ stock_volume v (stock_of o w)
            → LeftAs o (stock_volume v (stock_of o w)) rest w')
        → LeftAs o
            (stock_of o w)
            (failing_as g (drive (e.create_volume ctx v labels)) >>= λ _.
              on_failure (λ _. best_effort (drive (e.remove_volume detached v))) rest)
            w
    unfolding LeftAs failing_as drive ◌>>=◌
    create-LeftAs g v labels ctx rest w absent k =
        let r = e.create_volume ctx v labels w.runtime in
        elim (reply_cases r.0) [
          | inl (a, made) ↦
              let added = o.create_adds ctx v labels w.runtime made in
              rw made (
                unfold LeftAs in
                on_failure-LeftAs o _ rest (unstock_volume v) (stock_of o w)
                  (stock_volume v (stock_of o w)) (record w { runtime = r.1 }) (taken_away v)
                  (ap (λ has. record (stock_of o w) { volumes = has })
                    (without-with v (stock_of o w).volumes absent))
                  (k (record w { runtime = r.1 }) added))
          | inr (x, lost) ↦ rw lost (inr (o.create_refused ctx v labels w.runtime x lost))
        ]

    -- Nor does a container that is started for it.
    pub start-LeftAs :
        (g : Failure → Failure) (spec : BranchSpec) (ctx : Context) (rest : String → Action e A)
        (w : World e)
        → ((cid : String) → Plain o (rest cid))
        → LeftAs o
            (stock_of o w)
            (failing_as g (drive (e.start_branch ctx spec)) >>= λ cid.
              on_failure (λ _. best_effort (drive (e.stop_remove detached cid))) (rest cid))
            w
    unfolding LeftAs failing_as drive ◌>>=◌
    start-LeftAs g spec ctx rest w plain =
        let r = e.start_branch ctx spec w.runtime in
        elim (reply_cases r.0) [
          | inl (cid, up) ↦
              let (absent, added) = o.start_adds ctx spec w.runtime cid up in
              let w' : World e = record w { runtime = r.1 } in
              rw up (
                unfold LeftAs in
                on_failure-LeftAs o _ (rest cid) (unstock_container cid) (stock_of o w)
                  (stock_of o w') w' (stopped cid)
                  (ap (unstock_container cid) added
                    ∙ ap (λ has. record (stock_of o w) { containers = has })
                        (without-with cid (stock_of o w).containers absent))
                  (Plain-LeftAs o (rest cid) w' (plain cid)))
          | inr (x, lost) ↦ rw lost (inr (o.start_refused ctx spec w.runtime x lost))
        ]
