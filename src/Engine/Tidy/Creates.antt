-- ===== src/Engine/Tidy/Creates.antt =====
-- What a create that fails leaves on the host, on the overlay backend.
use pgoverlay.Base.{ℕ, zero, suc, Bool, false, ◌≡◌, ap, ◌∙◌, Option, none, some, String}
use pgoverlay.Cow.{plan_branch}
use pgoverlay.Registry.Types.{Source, Branch}
use pgoverlay.Registry.Layers.{Walk, chain, missing_layer, out_of_fuel}
use pgoverlay.Engine.World.{Context, request, Failure, Engine, World}
use pgoverlay.Engine.Layers.{walked, read_chain}
use pgoverlay.Engine.Instances.{start_overlay_branch, install_overlay_entrypoint}
use pgoverlay.Engine.Readiness.{
  stop_if_fatal, timed_out, wait_loop, wait_ready, inspect_loop, inspect_addr, run_script,
  apply_masking, drawn, draw_password, rotate_branch_credentials, await_and_mark,
}
use pgoverlay.Engine.Provision.{provision_overlay}
use pgoverlay.Engine.Flow.{control}
use pgoverlay.Engine.Tidy.{Orderly}
use pgoverlay.Engine.Tidy.Parts.{stock_of, LeftAs, Plain, bind-LeftAs}
use pgoverlay.Engine.Tidy.Driver.{
  call-Plain, helper-Plain, exec-Plain, inspect-Plain, create-LeftAs, start-LeftAs,
}

module _ {e : Engine} (o : Orderly e) where
  install-Plain : (ctx : Context) (v : String) → Plain o (install_overlay_entrypoint e ctx v)
  unfolding install_overlay_entrypoint
  install-Plain ctx v = search (control, helper-Plain)

  walked-Plain : (r : Walk) → Plain o (walked e r)
  walked-Plain (chain layers) = search control
  walked-Plain missing_layer = search control
  walked-Plain out_of_fuel = search control

  read_chain-Plain : (id : String) → Plain o (read_chain e id)
  unfolding read_chain
  read_chain-Plain id = search (control, walked-Plain)

  module _ (ctx : Context) (cid : String) where
    stop_if_fatal-Plain : (f : Failure) (d : Option (String × Bool)) → Plain o (stop_if_fatal e f d)
    stop_if_fatal-Plain f none = search control
    stop_if_fatal-Plain f (some (reason, fatal)) = search control

    timed_out-Plain : (last : Option Failure) → Plain o (timed_out e ctx cid last)
    timed_out-Plain none = search control
    timed_out-Plain (some f) = search control

    wait_loop-Plain : (left : ℕ) (last : Option Failure) → Plain o (wait_loop e ctx cid left last)
    unfolding wait_loop
    wait_loop-Plain zero last = timed_out-Plain last
    wait_loop-Plain (suc left) last =
        let again = wait_loop-Plain left in
        search (control, exec-Plain, stop_if_fatal-Plain, again) depth 9

    inspect_loop-Plain : (left : ℕ) → Plain o (inspect_loop e ctx cid left)
    unfolding inspect_loop
    inspect_loop-Plain zero = search (control, inspect-Plain)
    inspect_loop-Plain (suc left) =
        let again = inspect_loop-Plain left in search (control, inspect-Plain, again) depth 9

    apply_masking-Plain : (s : Source) → Plain o (apply_masking e ctx cid s)
    unfolding apply_masking run_script
    apply_masking-Plain s = search (control, exec-Plain)

    drawn-Plain : (text : Option String) → Plain o (drawn e text)
    drawn-Plain none = search control
    drawn-Plain (some password) = search control

    rotate-Plain : (b : Branch) (s : Source) → Plain o (rotate_branch_credentials e ctx cid b s)
    unfolding rotate_branch_credentials draw_password
    rotate-Plain b s = search (control, exec-Plain, call-Plain, drawn-Plain) depth 9

    await-Plain : (b : Branch) (s : Source) → Plain o (await_and_mark e ctx b s cid)
    unfolding await_and_mark wait_ready inspect_addr
    await-Plain b s =
        search
          (
            control, call-Plain, wait_loop-Plain, apply_masking-Plain, rotate-Plain,
            inspect_loop-Plain,
          )
          depth 9

  -- Provisioning that fails leaves the stock of the host as it found it, if the branch's writable volume
  -- was not there before.
  pub provision_overlay-LeftAs :
      (b : Branch) (s : Source) (w : World e)
      → (stock_of o w).volumes b.rw_volume ≡ false
      → LeftAs o (stock_of o w) (provision_overlay e b s) w
  unfolding provision_overlay start_overlay_branch plan_branch
  provision_overlay-LeftAs b s w absent =
      bind-LeftAs o _ _ w (read_chain-Plain b.id) λ layers w1 same. rw (← same) (
        create-LeftAs o _ b.rw_volume _ request _ w1 (ap (λ k. k.volumes b.rw_volume) same ∙ absent)
          λ w2 added. rw (← added) (
            bind-LeftAs o _ _ w2 (search (control, install-Plain)) λ _ w3 kept.
              rw (← kept) (start-LeftAs o _ _ request _ w3 λ cid. await-Plain request cid b s)))
