-- ===== src/Engine/Waiting.antt =====
-- When waitReady ends well.
use pgoverlay.Base.{
  ℕ, zero, suc, Bool, true, false, ◌≡◌, refl, sym, ap, ◌∙◌, ◌⊎◌, inl, inr, ◌↔◌, Option, none, some,
  String, Bool-cases,
}
use pgoverlay.Engine.World.{
  Context, Reply, reply, refused, Failure, driver_error, DriverError, done, failed, Engine, World,
}
use pgoverlay.Engine.Actions.{◌>>=◌, pure, raise, peek, rescue, drive}
use pgoverlay.Engine.Readiness.{pg_isready, stop_if_fatal, wait_loop, wait_ready}

abbrev fatal : Option (String × Bool) → Bool
fatal none = false
fatal (some (reason, f)) = f

module _ (e : Engine) (ctx : Context) (cid : String) where
  abbrev pub probe : World e → Reply (Unit {0}) × e.Runtime
  probe w = e.exec ctx cid pg_isready w.runtime

  abbrev pub after_probe : World e → World e
  after_probe w = record w { runtime = (probe w).1 }

  -- One of the next probes answers, `left` after the first at most; until then neither a fatal diagnosis
  -- nor the end of the context comes in between.
  pub data Serves : ℕ → World e → Type 0 where
    answers : {left : ℕ} {w : World e} → (probe w).0 ≡ reply tt → Serves left w
    later :
        {left : ℕ} {w : World e}
        → fatal (e.diagnose_container ctx cid (probe w).1) ≡ false
        → e.is_done ctx (probe w).1 ≡ false
        → Serves left (after_probe w)
        → Serves (suc left) w

  Reply-cases : (r : Reply (Unit {0})) → (r ≡ reply tt) ⊎ ((x : DriverError) × (r ≡ refused x))
  Reply-cases (reply tt) = inl refl
  Reply-cases (refused x) = inr (x, refl)

  passes :
      (f : Failure) (d : Option (String × Bool)) (w : World e)
      → fatal d ≡ false
      → stop_if_fatal e f d w ≡ (done tt, w)
  unfolding pure
  passes f none w h = refl
  passes f (some (reason, true)) w h = absurd (cc)
  passes f (some (reason, false)) w h = refl

  stops :
      (f : Failure) (d : Option (String × Bool)) (w : World e)
      → fatal d ≡ true
      → (y : Failure) × (stop_if_fatal e f d w ≡ (failed y, w))
  unfolding raise
  stops f none w h = absurd (cc)
  stops f (some (reason, true)) w h = (_, refl)
  stops f (some (reason, false)) w h = absurd (cc)

  abbrev LoopDone : ℕ → Option Failure → World e → Type 0
  LoopDone left last w = (wait_loop e ctx cid left last w).0 ≡ done tt

  never_late : (f : Failure) (w : World e) → LoopDone zero (some f) w → ⊥
  unfolding wait_loop ◌>>=◌ peek raise
  never_late f w h = cc

  module _ (left : ℕ) (last : Option Failure) (w : World e) where
    answered_lem : (probe w).0 ≡ reply tt → LoopDone (suc left) last w
    unfolding wait_loop rescue drive
    answered_lem h = rw h refl

    module _ (x : DriverError) (silent : (probe w).0 ≡ refused x) where
      goes_on :
          fatal (e.diagnose_container ctx cid (probe w).1) ≡ false
          → e.is_done ctx (probe w).1 ≡ false
          → wait_loop e ctx cid (suc left) last w
            ≡ wait_loop e ctx cid left (some (driver_error x)) (after_probe w)
      unfolding wait_loop rescue drive ◌>>=◌ peek pure raise
      goes_on able open_ctx = rw silent (
          rw
            (passes (driver_error x) (e.diagnose_container ctx cid (probe w).1) (after_probe w)
              able)
            (rw open_ctx refl))

      given_up :
          fatal (e.diagnose_container ctx cid (probe w).1) ≡ true → ¬ LoopDone (suc left) last w
      unfolding wait_loop rescue drive ◌>>=◌ peek pure raise
      given_up dead h =
          let (y, e1) =
            stops (driver_error x) (e.diagnose_container ctx cid (probe w).1) (after_probe w)
              dead in
          absurd (cc (rw (silent, e1) at h))

      cut_off :
          fatal (e.diagnose_container ctx cid (probe w).1) ≡ false
          → e.is_done ctx (probe w).1 ≡ true
          → ¬ LoopDone (suc left) last w
      unfolding wait_loop rescue drive ◌>>=◌ peek pure raise
      cut_off able over h =
          let e1 =
            passes (driver_error x) (e.diagnose_container ctx cid (probe w).1) (after_probe w)
              able in
          absurd (cc (rw (silent, e1, over) at h))

  served :
      (left : ℕ) (last : Option Failure) (w : World e) → Serves left w → LoopDone (suc left) last w
  served left last w (answers h) = answered_lem left last w h
  served (suc left) last w (later able open_ctx s) = elim (Reply-cases (probe w).0) [
    | inl h ↦ answered_lem (suc left) last w h
    | inr (x, silent) ↦
        ap (λ r. r.0) (goes_on (suc left) last w x silent able open_ctx)
        ∙ served left (some (driver_error x)) (after_probe w) s
  ]

  -- The rest of the loop after a probe that got no answer
  abbrev Next : ℕ → Type 0
  Next left = (last : Option Failure) (w : World e) → LoopDone (suc left) last w → Serves left w

  silent_round :
      (left : ℕ) (last : Option Failure) (w : World e) (x : DriverError)
      → (probe w).0 ≡ refused x
      → (LoopDone left (some (driver_error x)) (after_probe w)
          → fatal (e.diagnose_container ctx cid (probe w).1) ≡ false
          → e.is_done ctx (probe w).1 ≡ false
          → Serves left w)
      → LoopDone (suc left) last w
      → Serves left w
  silent_round left last w x silent k h =
      elim (Bool-cases (fatal (e.diagnose_container ctx cid (probe w).1))) [
        | inl dead ↦ absurd (given_up left last w x silent dead h)
        | inr able ↦ elim (Bool-cases (e.is_done ctx (probe w).1)) [
          | inl over ↦ absurd (cut_off left last w x silent able over h)
          | inr open_ctx ↦
              k (sym (ap (λ r. r.0) (goes_on left last w x silent able open_ctx)) ∙ h) able open_ctx
        ]
      ]

  serves_if_done : (left : ℕ) → Next left
  serves_if_done zero last w h = elim (Reply-cases (probe w).0) [
    | inl hit ↦ answers hit
    | inr (x, silent) ↦
        silent_round zero last w x silent
          (λ late able open_ctx. absurd (never_late (driver_error x) (after_probe w) late)) h
  ]
  serves_if_done (suc left) last w h = elim (Reply-cases (probe w).0) [
    | inl hit ↦ answers hit
    | inr (x, silent) ↦
        silent_round (suc left) last w x silent
          (λ rest able open_ctx.
            later able open_ctx (serves_if_done left (some (driver_error x)) (after_probe w) rest))
          h
  ]

  -- waitReady ends well exactly when one of the probes before its deadline is answered, and no probe
  -- before that one is followed by a diagnosis that waiting cannot help or by the end of the context.
  pub wait_ready_lem :
      (w : World e) → ((wait_ready e ctx cid w).0 ≡ done tt) ↔ Serves e.ready_probes w
  unfolding wait_ready
  wait_ready_lem w = (serves_if_done e.ready_probes none w, served e.ready_probes none w)
