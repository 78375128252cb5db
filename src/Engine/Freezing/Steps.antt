-- ===== src/Engine/Freezing/Steps.antt =====
-- The steps of internal/engine/freeze.go before its commit leave the holdings of the branches as they
-- are, and every volume of the host but those that the freeze itself has made.
use pgoverlay.Base.{
  ℕ, zero, suc, Bool, true, false, ◌≡◌, ap, ◌∙◌, inl, inr, Option, none, some, List, String, ◌==◌,
  arith,
}
use pgoverlay.Registry.Types.{BranchState, Result, ok, err, Source, Branch, Layer, Db}
use pgoverlay.Registry.Sql.{Call, Tx, committed}
use pgoverlay.Registry.Branches.{transition_branch, mark_branch_ready}
use pgoverlay.Registry.Updates.{
  set_branch_password, set_branch_container, touch_branch, set_branch_pending_volume,
}
use pgoverlay.Registry.Layers.{Walk, chain, missing_layer, out_of_fuel}
use pgoverlay.Engine.World.{Context, Labels, Reply, Failure, HelperSpec, BranchSpec, Engine, World}
use pgoverlay.Engine.Tidy.{Orderly, without}
use pgoverlay.Engine.Tidy.Driver.{reply_cases}
use pgoverlay.Engine.Actions.{call, finish, drive}
use pgoverlay.Engine.Layers.{chosen, fresh_branch_layer, walked, read_chain}
use pgoverlay.Engine.Instances.{
  start_overlay_branch, start_zfs_branch, start_direct_branch, start_on_own_data,
  install_overlay_entrypoint,
}
use pgoverlay.Engine.Readiness.{
  stop_if_fatal, timed_out, wait_loop, wait_ready, inspect_loop, inspect_addr, run_script,
  apply_masking, drawn, draw_password, rotate_branch_credentials,
}
use pgoverlay.Engine.Provision.{restart_on_own_data, restart_and_mark_ready}
use pgoverlay.Engine.Freeze.{restore_parent, stop_parent}
use pgoverlay.Engine.Flow.{Stays, control}
use pgoverlay.Engine.Freezing.{
  Held, holdings, Leaves, transition_branch-Leaves, mark_branch_ready-Leaves,
  set_branch_container-Leaves, touch_branch-Leaves, set_branch_password-Leaves,
  set_branch_pending_volume-Leaves,
}

-- The branches hold what they held before, and the host has the volume `v`.
abbrev pub Holds : {e : Engine} → Orderly e → List Held × List Layer → String → World e → Type 0
Holds o before v w = (holdings w.db ≡ before) × ((o.stock w.runtime).volumes v ≡ true)

module _ (e : Engine) (o : Orderly e) (before : List Held × List Layer) (v : String) where
  abbrev Has : e.Runtime → Type 0
  Has r = (o.stock r).volumes v ≡ true

  drive-Stays :
      {A : Type 0} (f : e.Runtime → Reply A × e.Runtime)
      → ((r : e.Runtime) → Has r → Has (f r).1)
      → Stays (Holds o before v) (drive f)
  unfolding Stays drive
  drive-Stays f keeps w h = (h.0, keeps w.runtime h.1)

  Has-as_before : (r r' : e.Runtime) → o.stock r' ≡ o.stock r → Has r → Has r'
  Has-as_before r r' same h = ap (λ k. k.volumes v) same ∙ h

  pub helper-Stays :
      (ctx : Context) (spec : HelperSpec) → Stays (Holds o before v) (drive (e.run_helper ctx spec))
  helper-Stays ctx spec = drive-Stays _ λ r. Has-as_before r _ (o.helper_keeps ctx spec r)

  pub exec-Stays :
      (ctx : Context) (cid : String) (cmd : List String)
      → Stays (Holds o before v) (drive (e.exec ctx cid cmd))
  exec-Stays ctx cid cmd = drive-Stays _ λ r. Has-as_before r _ (o.exec_keeps ctx cid cmd r)

  pub inspect-Stays :
      (ctx : Context) (cid : String) → Stays (Holds o before v) (drive (e.inspect ctx cid))
  inspect-Stays ctx cid = drive-Stays _ λ r. Has-as_before r _ (o.inspect_keeps ctx cid r)

  pub start-Stays :
      (ctx : Context) (spec : BranchSpec)
      → Stays (Holds o before v) (drive (e.start_branch ctx spec))
  start-Stays ctx spec = drive-Stays _ λ r h. elim (reply_cases (e.start_branch ctx spec r).0) [
    | inl (cid, up) ↦ ap (λ k. k.volumes v) (o.start_adds ctx spec r cid up).1 ∙ h
    | inr (x, lost) ↦ Has-as_before r _ (o.start_refused ctx spec r x lost) h
  ]

  pub stop-Stays :
      (ctx : Context) (cid : String) → Stays (Holds o before v) (drive (e.stop_remove ctx cid))
  stop-Stays ctx cid = drive-Stays _ λ r h. elim (reply_cases (e.stop_remove ctx cid r).0) [
    | inl (a, answered) ↦ ap (λ k. k.volumes v) (o.stop_removes ctx cid r answered).0 ∙ h
    | inr (x, lost) ↦ elim (o.stop_refused ctx cid r x lost).0 [
      | inl gone ↦ ap (λ k. k.volumes v) gone ∙ h
      | inr same ↦ Has-as_before r _ same h
    ]
  ]

  pub create-Stays :
      (ctx : Context) (u : String) (labels : Labels)
      → Stays (Holds o before v) (drive (e.create_volume ctx u labels))
  create-Stays ctx u labels = drive-Stays _ λ r h.
      elim (reply_cases (e.create_volume ctx u labels r).0) [
        | inl (a, made) ↦
            ap (λ k. k.volumes v) (o.create_adds ctx u labels r made) ∙ ground (arith, h)
        | inr (x, lost) ↦ Has-as_before r _ (o.create_refused ctx u labels r x lost) h
      ]

  -- Another volume is removed.
  pub remove-Stays :
      (ctx : Context) (u : String)
      → (v == u) ≡ false
      → Stays (Holds o before v) (drive (e.remove_volume ctx u))
  remove-Stays ctx u other = drive-Stays _ λ r h.
      let still : without u (o.stock r).volumes v ≡ true = ground (arith, h, other) in
      elim (reply_cases (e.remove_volume ctx u r).0) [
        | inl (a, answered) ↦ ap (λ k. k.volumes v) (o.remove_removes ctx u r answered).0 ∙ still
        | inr (x, lost) ↦ elim (o.remove_refused ctx u r x lost).0 [
          | inl gone ↦ ap (λ k. k.volumes v) gone ∙ still
          | inr same ↦ Has-as_before r _ same h
        ]
      ]

  module _ {A : Type 0} where
    finished :
        (r : Result (A × Db)) (w : World e)
        → holdings (committed w.db r) ≡ holdings w.db
        → Holds o before v w
        → Holds o before v (finish r w).1
    finished (ok (a, db)) w same h = (same ∙ h.0, h.1)
    finished (err x) w same h = h

    call-Stays :
        (tx : Call → Tx A)
        → ((c : Call) (db : Db) → Leaves db (tx c db))
        → Stays (Holds o before v) (call tx)
    unfolding Stays call Leaves
    call-Stays tx same w h = finished (tx (e.clock w.ticks) w.db) w (same (e.clock w.ticks) w.db) h

  pub transition-Stays :
      (id : String) (to : BranchState) (reason : String)
      → Stays (Holds o before v) (call (λ c. transition_branch c id to reason))
  transition-Stays id to reason = call-Stays _ λ c db. transition_branch-Leaves c id to reason db

  pub ready-Stays :
      (id container host : String) (port : ℕ)
      → Stays (Holds o before v) (call (λ c. mark_branch_ready c id container host port))
  ready-Stays id container host port =
      call-Stays _ λ c db. mark_branch_ready-Leaves c id container host port db

  pub container-Stays :
      (id container : String)
      → Stays (Holds o before v) (call (λ c. set_branch_container c id container))
  container-Stays id container = call-Stays _ λ c db. set_branch_container-Leaves c id container db

  pub touch-Stays : (id : String) → Stays (Holds o before v) (call (λ c. touch_branch c id))
  touch-Stays id = call-Stays _ λ c db. touch_branch-Leaves c id db

  pub password-Stays :
      (id password : String)
      → Stays (Holds o before v) (call (λ c. set_branch_password e.encrypt c id password))
  password-Stays id password =
      call-Stays _ λ c db. set_branch_password-Leaves c id e.encrypt password db

  pub pending-Stays :
      (id volume : String)
      → Stays (Holds o before v) (call (λ _. set_branch_pending_volume id volume))
  pending-Stays id volume = call-Stays _ λ c db. set_branch_pending_volume-Leaves id volume db

pub ruleset holding = (
  control, helper-Stays, exec-Stays, inspect-Stays, start-Stays, stop-Stays, create-Stays,
  transition-Stays, ready-Stays, container-Stays, touch-Stays, password-Stays, pending-Stays,
)

module _ (e : Engine) (o : Orderly e) (before : List Held × List Layer) (v : String) where
  pub install_entrypoint-Stays :
      (ctx : Context) (u : String) → Stays (Holds o before v) (install_overlay_entrypoint e ctx u)
  unfolding install_overlay_entrypoint
  install_entrypoint-Stays ctx u = search holding

  chosen-Stays : (found : Option String) → Stays (Holds o before v) (chosen e found)
  chosen-Stays none = search holding
  chosen-Stays (some u) = search holding

  pub fresh_layer-Stays :
      (name : String) (least : ℕ) → Stays (Holds o before v) (fresh_branch_layer e name least)
  unfolding fresh_branch_layer
  fresh_layer-Stays name least = search (holding, chosen-Stays)

  walked-Stays : (r : Walk) → Stays (Holds o before v) (walked e r)
  walked-Stays (chain layers) = search holding
  walked-Stays missing_layer = search holding
  walked-Stays out_of_fuel = search holding

  pub read_chain-Stays : (id : String) → Stays (Holds o before v) (read_chain e id)
  unfolding read_chain
  read_chain-Stays id = search (holding, walked-Stays)

  module _ (ctx : Context) (cid : String) where
    stop_if_fatal-Stays :
        (f : Failure) (d : Option (String × Bool)) → Stays (Holds o before v) (stop_if_fatal e f d)
    stop_if_fatal-Stays f none = search holding
    stop_if_fatal-Stays f (some (reason, fatal)) = search holding

    timed_out-Stays : (last : Option Failure) → Stays (Holds o before v) (timed_out e ctx cid last)
    timed_out-Stays none = search holding
    timed_out-Stays (some f) = search holding

    wait_loop-Stays :
        (left : ℕ) (last : Option Failure)
        → Stays (Holds o before v) (wait_loop e ctx cid left last)
    unfolding wait_loop
    wait_loop-Stays zero last = timed_out-Stays last
    wait_loop-Stays (suc left) last =
        let again = wait_loop-Stays left in search (holding, stop_if_fatal-Stays, again) depth 9

    pub wait_ready-Stays : Stays (Holds o before v) (wait_ready e ctx cid)
    unfolding wait_ready
    wait_ready-Stays = wait_loop-Stays _ _

    inspect_loop-Stays : (left : ℕ) → Stays (Holds o before v) (inspect_loop e ctx cid left)
    unfolding inspect_loop
    inspect_loop-Stays zero = search holding
    inspect_loop-Stays (suc left) =
        let again = inspect_loop-Stays left in search (holding, again) depth 9

    pub inspect_addr-Stays : Stays (Holds o before v) (inspect_addr e ctx cid)
    unfolding inspect_addr
    inspect_addr-Stays = inspect_loop-Stays _

    pub masking-Stays : (s : Source) → Stays (Holds o before v) (apply_masking e ctx cid s)
    unfolding apply_masking run_script
    masking-Stays s = search holding

    drawn-Stays : (text : Option String) → Stays (Holds o before v) (drawn e text)
    drawn-Stays none = search holding
    drawn-Stays (some password) = search holding

    draw_password-Stays : Stays (Holds o before v) (draw_password e)
    unfolding draw_password
    draw_password-Stays = search (holding, drawn-Stays)

    pub rotation-Stays :
        (b : Branch) (s : Source)
        → Stays (Holds o before v) (rotate_branch_credentials e ctx cid b s)
    unfolding rotate_branch_credentials
    rotation-Stays b s = search (holding, draw_password-Stays) depth 9

pub ruleset held_steps = (
  holding, install_entrypoint-Stays, fresh_layer-Stays, read_chain-Stays, wait_ready-Stays,
  inspect_addr-Stays, masking-Stays, rotation-Stays,
)

module _ (e : Engine) (o : Orderly e) (before : List Held × List Layer) (v : String) where
  module _ (ctx : Context) (b : Branch) (s : Source) (layers : List Layer) where
    own_data-Stays : Stays (Holds o before v) (start_on_own_data e ctx b s layers)
    unfolding start_on_own_data start_zfs_branch start_direct_branch start_overlay_branch
    own_data-Stays = search holding

    restart-Stays : Stays (Holds o before v) (restart_on_own_data e ctx b s layers)
    unfolding restart_on_own_data
    restart-Stays = search (held_steps, own_data-Stays) depth 12

    pub restart_ready-Stays : Stays (Holds o before v) (restart_and_mark_ready e ctx b s layers)
    unfolding restart_and_mark_ready
    restart_ready-Stays = search (holding, restart-Stays) depth 9

  pub restore-Stays :
      (parent : Branch) (s : Source) (layers : List Layer) (f : Failure)
      → Stays (Holds o before v) (restore_parent e parent s layers f)
  unfolding restore_parent
  restore-Stays parent s layers f = search (holding, restart_ready-Stays) depth 9

  pub stop_parent-Stays :
      (child parent : Branch) (s : Source) → Stays (Holds o before v) (stop_parent e child parent s)
  unfolding stop_parent
  stop_parent-Stays child parent s = search holding depth 9
