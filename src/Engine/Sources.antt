-- ===== src/Engine/Sources.antt =====
-- internal/engine/engine.go: AddSource, RefreshSource and RemoveSource.
use pgoverlay.Base.{◌+◌, Option, none, some, String, nat_eq, if◌then◌else◌}
use pgoverlay.Cow.{source_layer_name, mountpoint}
use pgoverlay.Registry.Types.{source_ready, source_failed, source_state_eq, Source, Layer}
use pgoverlay.Registry.Sources.{
  create_source, set_source_state, set_source_pending_volume, bump_source_generation, delete_source,
  delete_failed_sources,
}
use pgoverlay.Registry.Layers.{count_branches_referencing_layer}
use pgoverlay.Registry.Queries.{count_live_branches_by_source}
use pgoverlay.Registry.Lookups.{get_source_by_name, list_layers_by_source}
use pgoverlay.Engine.World.{request, detached, Failure, has_children, Engine}
use pgoverlay.Engine.Actions.{
  Action, pure, raise, ◌>>=◌, ◌>>◌, ask, look, call, drive, require, named, best_effort, on_failure,
  undoing, for_each,
}
use pgoverlay.Engine.Layers.{is_zfs, layer_labels, create_source_layer, remove_source_layer}
use pgoverlay.Engine.Create.{validate_name, require_source_ready}
use pgoverlay.Engine.Destroy.{gc_source_volume}

module _ (e : Engine) where
  abbrev pub accepted : Option Failure → Action e (Unit {0})
  accepted none = pure tt
  accepted (some f) = raise f

  -- seedTarget
  abbrev pub seed_target : String → String
  seed_target layer = if is_zfs e then mountpoint layer else layer

  abbrev pub seed : Source → String → String → Action e (Unit {0})
  seed s layer password = drive (e.seed_source request s (seed_target layer) password)

  abbrev pub settle_failed : Source → String → Action e (Unit {0})
  settle_failed s reason = best_effort (call (λ c. set_source_state c s.id source_failed reason))

  abbrev pub discard : String → Action e (Unit {0})
  discard layer = best_effort (remove_source_layer e detached layer)

  -- AddSource
  unfoldable pub add_source : Source → String → Action e (Unit {0})
  add_source asked password = do
    validate_name e "source" asked.name
    accepted (e.validate_conn asked)
    s ← call (λ c.
        create_source e.platform c
          (record asked { volume = source_layer_name e.planner asked.name 1 }))
    undoing (settle_failed s "source layer create failed")
        (create_source_layer e request s.volume (layer_labels e "pgoverlay.source.name" s.name))
    named "seed source" (
        on_failure (λ f. discard s.volume >> settle_failed s (e.failure_reason f))
          (seed s s.volume password))
    call (λ c. set_source_state c s.id source_ready "seed complete")

  abbrev pub release : Source → Action e (Unit {0})
  release s = best_effort (call (λ _. set_source_pending_volume s.id ""))

  -- The new generation, claimed on the source's row while it is made
  unfoldable pub seed_generation : Source → String → String → Action e (Unit {0})
  seed_generation s v password = do
    named "claim" (call (λ _. set_source_pending_volume s.id v))
    undoing (release s)
        (create_source_layer e request v (layer_labels e "pgoverlay.source.name" s.name))
    named "refresh source" (undoing (discard v >> release s) (seed s v password))

  -- RefreshSource
  unfoldable pub refresh_source : String → String → Action e (Unit {0})
  refresh_source name password = do
    s ← ask (get_source_by_name name)
    require_source_ready e s
    let v = source_layer_name e.planner name (s.generation + 1)
    seed_generation s v password
    call (λ c. bump_source_generation c s.id v)
    gc_source_volume e request s.id s.volume

  abbrev pub unreferenced : Layer → Action e (Unit {0})
  unreferenced l = look (count_branches_referencing_layer l.id) >>= λ n.
      require (nat_eq n 0) (has_children l.volume)

  abbrev pub drop_layer : Layer → Action e (Unit {0})
  drop_layer l = named "remove layer volume" (remove_source_layer e request l.volume)

  -- A failed source may have no layer.
  abbrev pub drop_current : Source → Action e (Unit {0})
  drop_current s =
      if source_state_eq s.state source_ready
      then named "remove source layer" (remove_source_layer e request s.volume)
      else best_effort (remove_source_layer e request s.volume)

  -- RemoveSource
  unfoldable pub remove_source : String → Action e (Unit {0})
  remove_source name = do
    s ← ask (get_source_by_name name)
    n ← look (count_live_branches_by_source s.id)
    require (nat_eq n 0) (has_children name)
    layers ← look (list_layers_by_source s.id)
    for_each unreferenced layers
    for_each drop_layer layers
    drop_current s
    call (λ c. delete_source c s.id)
    named "remove failed attempts" (call (λ _. delete_failed_sources name))
    pure tt
