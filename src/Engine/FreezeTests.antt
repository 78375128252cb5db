-- ===== src/Engine/FreezeTests.antt =====
-- A freeze on a host where no container starts (internal/engine/freeze.go).
use pgoverlay.Base.{
  true, false, ◌≡◌, refl, delete_where, find_where, exists_where, count_where, update_where,
  decimal,
}
use pgoverlay.Registry.Types.{Branch}
use pgoverlay.Registry.Sql.{
  find_branch, insert_branch, journal, update_state, update_branches, forget_password,
}
use pgoverlay.Registry.Branches.{
  create_branch, transition_branch, transition_branch_set, transition_from, swap_state,
  mark_branch_ready,
}
use pgoverlay.Registry.Sources.{
  create_source, insert_source, delete_failed_rows, set_source_state, source_from, find_source,
}
use pgoverlay.Registry.Updates.{update_or_missing, set_branch_pending_volume}
use pgoverlay.Registry.Layers.{layer_chain, walk}
use pgoverlay.Registry.Run.{apply, run}
use pgoverlay.Engine.World.{
  refused, unavailable, Failure, driver_error, step, failed, Engine, World,
}
use pgoverlay.Engine.Actions.{
  ◌>>=◌, pure, raise, ask, look, require, call, drive, peek, at_tick, failing_as, best_effort,
  on_failure, rescue,
}
use pgoverlay.Engine.Layers.{read_chain, fresh_branch_layer, free_layer, pick_layer}
use pgoverlay.Engine.Instances.{start_overlay_branch, install_overlay_entrypoint}
use pgoverlay.Engine.Freeze.{stop_parent, start_stacked, swap_and_stack, freeze_parent}
use pgoverlay.Registry.Queries.{volume_name_used}
use pgoverlay.Cow.{branch_rw_volume_name_gen}
use pgoverlay.Engine.Tidy.{Orderly}
use pgoverlay.Engine.Tidy.Parts.{stock_of}
use pgoverlay.Engine.Freezing.{holdings}
use pgoverlay.Engine.Freezing.Commits.{freeze_parent_spares}
use pgoverlay.Engine.Host.{host, main_source, dev_branch, start_db, start_host}

-- No container starts.
abbrev crowded : Engine
crowded = record host { start_branch = λ ctx spec h. (refused unavailable, h) }

abbrev crowded_start : World crowded
crowded_start = record { db = start_db; runtime = start_host; ticks = 0 }

abbrev kid : Branch
kid = record dev_branch { id = "b2"; name = "kid"; rw_volume = "pgoverlay-br-kid-rw" }

abbrev dev : Branch
dev = record dev_branch { id = "b1"; container_id = "c1" }

abbrev refusal : Failure
refusal = step "restart parent" (driver_error unavailable)

freeze_refused : (freeze_parent crowded kid dev main_source crowded_start).0 ≡ failed refusal
unfolding run apply create_source insert_source delete_failed_rows set_source_state source_from
    find_source create_branch insert_branch journal exists_where find_where delete_where count_where
    update_where find_branch transition_branch transition_branch_set transition_from swap_state
    mark_branch_ready update_state update_branches forget_password ◌>>=◌ pure raise ask look require
    call drive peek at_tick failing_as best_effort on_failure rescue read_chain layer_chain walk
    fresh_branch_layer free_layer pick_layer start_overlay_branch install_overlay_entrypoint
    stop_parent start_stacked swap_and_stack freeze_parent update_or_missing
    set_branch_pending_volume volume_name_used branch_rw_volume_name_gen decimal
freeze_refused = refl

crowded_orderly : Orderly crowded
crowded_orderly = record {
  stock = λ h. h.stock;
  missed = λ h. false;
  create_adds = λ ctx v labels r e. refl;
  create_refused = λ ctx v labels r x e. absurd (cc);
  remove_removes = λ ctx v r e. (refl, refl);
  remove_refused = λ ctx v r x e. absurd (cc);
  start_adds = λ ctx spec r cid e. absurd (cc);
  start_refused = λ ctx spec r x e. refl;
  stop_removes = λ ctx cid r e. (refl, refl);
  stop_refused = λ ctx cid r x e. absurd (cc);
  helper_keeps = λ ctx spec r. refl;
  exec_keeps = λ ctx cid cmd r. refl;
  inspect_keeps = λ ctx cid r. refl;
}

-- A row names the parent's writable volume.
dev_volume_used : volume_name_used dev.rw_volume start_db ≡ true
unfolding run apply create_source insert_source delete_failed_rows set_source_state source_from
    find_source create_branch insert_branch journal exists_where find_where delete_where count_where
    update_where find_branch transition_branch transition_branch_set transition_from swap_state
    mark_branch_ready update_state update_branches forget_password volume_name_used
dev_volume_used = refl

freeze_parent_spares_example :
    (holdings (freeze_parent crowded kid dev main_source crowded_start).1.db
      ≡ holdings crowded_start.db)
    × ((stock_of crowded_orderly
            (freeze_parent crowded kid dev main_source crowded_start).1).volumes
          dev.rw_volume
        ≡ true)
freeze_parent_spares_example =
    freeze_parent_spares crowded crowded_orderly kid dev main_source dev.rw_volume crowded_start
      refusal refl dev_volume_used refl (unfold crowded_orderly in dev_volume_used) freeze_refused
