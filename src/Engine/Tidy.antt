-- ===== src/Engine/Tidy.antt =====
-- What a failed action leaves on the host: the volumes and containers of a host, and its driver's contract.
pub mod Parts
pub mod Driver
pub mod Creates
pub mod Fails
use mathlib.Core.Path.{fun_ext, subst}
use pgoverlay.Base.{
  ℕ, Bool, true, false, not, ◌&&◌, ◌||◌, ◌≡◌, refl, sym, ap, ◌∙◌, ◌⊎◌, inl, inr, String, ◌==◌,
  eq_iff, arith, Bool-cases,
}
use pgoverlay.Cow.{Plan}
use pgoverlay.Registry.Types.{ok, err, Db, Result}
use pgoverlay.Registry.Sql.{Call, Tx}
use pgoverlay.Engine.World.{
  Context, detached, DriverError, Labels, Reply, reply, refused, Failure, Outcome, done, failed,
  HelperSpec, BranchSpec, Engine, World,
}
use pgoverlay.Engine.Actions.{
  Action, ◌>>=◌, call, finish, drive, change, failing_as, best_effort, on_failure, clean_up, resume,
}
use pgoverlay.Engine.Flow.{Stays, control}

-- The volumes and the containers that a host has
pub record Stock : Type 0 where
  pub volumes : String → Bool
  pub containers : String → Bool

abbrev pub with : String → (String → Bool) → String → Bool
with x has y = y == x || has y

abbrev pub without : String → (String → Bool) → String → Bool
without x has y = not (y == x) && has y

abbrev pub stock_volume : String → Stock → Stock
stock_volume v s = record s { volumes = with v s.volumes }

abbrev pub unstock_volume : String → Stock → Stock
unstock_volume v s = record s { volumes = without v s.volumes }

abbrev pub stock_container : String → Stock → Stock
stock_container c s = record s { containers = with c s.containers }

abbrev pub unstock_container : String → Stock → Stock
unstock_container c s = record s { containers = without c s.containers }

-- A driver that does what its interface says: a create or a start that fails adds nothing, a start gives
-- the new container an id of its own, and the rest changes nothing of the stock. A removal that is answered
-- removes; one that is refused, because the volume is in use or the driver does not answer, may have left
-- what it was to remove, and `missed` is what an observer of the replies then keeps: whether a removal has
-- been refused so far.
pub record Orderly (e : Engine) : Type 0 where
  pub stock : e.Runtime → Stock
  pub missed : e.Runtime → Bool
  pub create_adds :
      (ctx : Context) (v : String) (labels : Labels) (r : e.Runtime)
      → (e.create_volume ctx v labels r).0 ≡ reply tt
      → stock (e.create_volume ctx v labels r).1 ≡ stock_volume v (stock r)
  pub create_refused :
      (ctx : Context) (v : String) (labels : Labels) (r : e.Runtime) (x : DriverError)
      → (e.create_volume ctx v labels r).0 ≡ refused x
      → stock (e.create_volume ctx v labels r).1 ≡ stock r
  pub remove_removes :
      (ctx : Context) (v : String) (r : e.Runtime)
      → (e.remove_volume ctx v r).0 ≡ reply tt
      → (stock (e.remove_volume ctx v r).1 ≡ unstock_volume v (stock r))
        × (missed (e.remove_volume ctx v r).1 ≡ missed r)
  pub remove_refused :
      (ctx : Context) (v : String) (r : e.Runtime) (x : DriverError)
      → (e.remove_volume ctx v r).0 ≡ refused x
      → ((stock (e.remove_volume ctx v r).1 ≡ unstock_volume v (stock r))
          ⊎ (stock (e.remove_volume ctx v r).1 ≡ stock r))
        × (missed (e.remove_volume ctx v r).1 ≡ true)
  pub start_adds :
      (ctx : Context) (spec : BranchSpec) (r : e.Runtime) (cid : String)
      → (e.start_branch ctx spec r).0 ≡ reply cid
      → ((stock r).containers cid ≡ false)
        × (stock (e.start_branch ctx spec r).1 ≡ stock_container cid (stock r))
  pub start_refused :
      (ctx : Context) (spec : BranchSpec) (r : e.Runtime) (x : DriverError)
      → (e.start_branch ctx spec r).0 ≡ refused x
      → stock (e.start_branch ctx spec r).1 ≡ stock r
  pub stop_removes :
      (ctx : Context) (cid : String) (r : e.Runtime)
      → (e.stop_remove ctx cid r).0 ≡ reply tt
      → (stock (e.stop_remove ctx cid r).1 ≡ unstock_container cid (stock r))
        × (missed (e.stop_remove ctx cid r).1 ≡ missed r)
  pub stop_refused :
      (ctx : Context) (cid : String) (r : e.Runtime) (x : DriverError)
      → (e.stop_remove ctx cid r).0 ≡ refused x
      → ((stock (e.stop_remove ctx cid r).1 ≡ unstock_container cid (stock r))
          ⊎ (stock (e.stop_remove ctx cid r).1 ≡ stock r))
        × (missed (e.stop_remove ctx cid r).1 ≡ true)
  pub helper_keeps :
      (ctx : Context) (spec : HelperSpec) (r : e.Runtime)
      → stock (e.run_helper ctx spec r).1 ≡ stock r
  pub exec_keeps :
      (ctx : Context) (cid : String) (cmd : _) (r : e.Runtime)
      → stock (e.exec ctx cid cmd r).1 ≡ stock r
  pub inspect_keeps :
      (ctx : Context) (cid : String) (r : e.Runtime) → stock (e.inspect ctx cid r).1 ≡ stock r

-- What is added where it was not, and taken away again, leaves no trace.
pub without-with : (x : String) (has : String → Bool) → has x ≡ false → without x (with x has) ≡ has
without-with x has absent = fun_ext λ y. elim (Bool-cases (y == x)) [
  | inl e ↦ let same : y ≡ x = (eq_iff y x).0 e in ground (arith, e, ap has same, absent)
  | inr e ↦ ground (arith, e)
]
