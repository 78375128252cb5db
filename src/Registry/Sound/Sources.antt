-- ===== src/Registry/Sound/Sources.antt =====
-- The source operations keep the registry sound.
use pgoverlay.Base.{
  ℕ, Bool, true, false, not, ◌&&◌, ◌≡◌, refl, ap, ◌∙◌, Option, none, some, List, ◌∷◌, String, ◌==◌,
  eq_iff, arith, nat_eq, map, All, All-map, All-both, All-delete, All-of_not_exists, update_where,
  count_where, delete_where, exists_where, exists-update, exists-delete, exists-delete_apart,
  count-delete-le,
}
use native.Mathlib.Nat.{le_trans}
use pgoverlay.Registry.Types.{
  SourceState, seeding, source_failed, of_source, blank, StateText, source, Error, Result, ok, err,
  Source, Branch, Transition, MaskScript, Layer, Db, legal_source_transition, of_branch,
  is_branch_entity,
}
use pgoverlay.Registry.Sql.{Call, committed, journal, has_id}
use pgoverlay.Registry.Updates.{Platform, ms_cutoff}
use pgoverlay.Registry.Sources.{
  validate_pg_version, validate_image, failed_named, live_named, source_in, delete_failed_rows,
  new_source, after_delete, unless_invalid, insert_source, create_source, has_source_id,
  find_source, source_from, set_source_state, set_source_pending_volume, bumped,
  bump_source_generation, touch_source, is_stuck_source, fail_stuck_source, set_mask_scripts, stamp,
  all_parents_exist, delete_found, delete_source,
}
use pgoverlay.Registry.Queries.{live_with_name}
use pgoverlay.Registry.Trail.{
  last_state, last_state-journal_source, IsTrail-journal_source, last_state-map, IsTrail-map,
  KeepsRow,
}
use pgoverlay.Registry.Sound.Keys.{IsSound, IsSound-if}

abbrev HasHome : List Source → Branch → Type 0
HasHome sources b = exists_where (has_source_id b.source_id) sources ≡ true

-- Other sources, in which each branch has its own
pub sources-IsSound :
    (db : Db) (sources : List Source) (ms : List MaskScript)
    → All (HasHome sources) db.branches
    → IsSound db
    → IsSound (record db { sources = sources; mask_scripts = ms })
sources-IsSound db sources ms homes s = record {
  ids = s.ids;
  names = s.names;
  states = s.states;
  trail = s.trail;
  homes = homes;
}

-- A row of the trail about a source
pub journal_source-IsSound :
    (c : Call) (id : String) (from to : StateText) (reason : String) (db : Db)
    → IsSound db
    → IsSound (journal c source id from to reason db)
unfolding journal
journal_source-IsSound c id from to reason db s = record {
  ids = s.ids;
  names = s.names;
  states =
      All-map _ _ (λ b h. last_state-journal_source c id from to reason db b.id ∙ h) db.branches
        s.states;
  trail = IsTrail-journal_source c id from to reason db s.trail;
  homes = s.homes;
}

update_sources-IsSound :
    (db : Db) (q : Source → Bool) (f : Source → Source)
    → ((x : Source) → (f x).id ≡ x.id)
    → IsSound db
    → IsSound (record db { sources = update_where q f db.sources })
update_sources-IsSound db q f same s =
    sources-IsSound db _ db.mask_scripts
      (All-map _ _
        (λ b h.
          exists-update (has_source_id b.source_id) q f db.sources
            (λ x. ap (λ i. i == b.source_id) (same x))
          ∙ h)
        db.branches s.homes)
      s

module _ (c : Call) (id : String) (db : Db) (s : IsSound db) where
  pub touch_source-IsSound : IsSound (committed db (touch_source c id db))
  unfolding touch_source
  touch_source-IsSound = update_sources-IsSound db _ _ (λ x. refl) s

  pub set_source_pending_volume-IsSound :
      (volume : String) → IsSound (committed db (set_source_pending_volume id volume db))
  unfolding set_source_pending_volume
  set_source_pending_volume-IsSound volume =
      IsSound-if db (nat_eq (count_where (has_source_id id) db.sources) 0) _ _ (λ _. s)
        (λ _. update_sources-IsSound db _ _ (λ x. refl) s)

  pub set_source_state-IsSound :
      (to : SourceState) (reason : String)
      → IsSound (committed db (set_source_state c id to reason db))
  unfolding set_source_state journal
  set_source_state-IsSound to reason = from_row (find_source id db)
    where
      from_row : (o : Option Source) → IsSound (committed db (source_from c id to reason o db))
      from_row none = s
      from_row (some x) =
          IsSound-if db (not (legal_source_transition x.state to)) _ _ (λ _. s)
            (λ _.
              IsSound-if db
                (nat_eq (count_where (λ o. o.id == id && source_in x.state o) db.sources) 0) _ _
                (λ _. s)
                (λ _.
                  journal_source-IsSound c id (of_source x.state) (of_source to) reason _
                    (update_sources-IsSound db _ _ (λ x. refl) s)))

  pub bump_source_generation-IsSound :
      (volume : String) → IsSound (committed db (bump_source_generation c id volume db))
  unfolding bump_source_generation bumped
  bump_source_generation-IsSound volume =
      from_row _ (update_sources-IsSound db _ _ (λ x. refl) s) (find_source id _)
    where
      from_row :
          (d : Db)
          → IsSound d
          → (o : Option Source) → IsSound (committed db (bumped c id volume o d))
      from_row d h none = s
      from_row d h (some x) =
          journal_source-IsSound c id (of_source x.state) (of_source x.state) _ d h

  pub fail_stuck_source-IsSound :
      (p : Platform) (before reason : String)
      → IsSound (committed db (fail_stuck_source p c id before reason db))
  unfolding fail_stuck_source
  fail_stuck_source-IsSound p before reason =
      IsSound-if db
        (nat_eq (count_where (λ x. x.id == id && is_stuck_source (ms_cutoff p before) x) db.sources)
          1)
        _ _
        (λ _.
          journal_source-IsSound c id (of_source seeding) (of_source source_failed) reason _
            (update_sources-IsSound db _ _ (λ x. refl) s))
        (λ _. s)

pub set_mask_scripts-IsSound :
    (id : String) (scripts : List (String × String)) (db : Db)
    → IsSound db
    → IsSound (committed db (set_mask_scripts id scripts db))
unfolding set_mask_scripts
set_mask_scripts-IsSound id scripts db s = sources-IsSound db db.sources _ s.homes s

module _ (c : Call) (db : Db) (s : IsSound db) where
  insert_source-IsSound :
      (d : Db) → IsSound d → (x : Source) → IsSound (committed db (insert_source c x d))
  unfolding insert_source exists_where
  insert_source-IsSound d h x =
      IsSound-if db (exists_where (λ o. o.id == x.id) d.sources) _ _ (λ _. s)
        (λ _.
          IsSound-if db (exists_where (live_named x.name) d.sources) _ _ (λ _. s)
            (λ _. journal_source-IsSound c x.id blank (of_source seeding) "created" _ (
              sources-IsSound d (x ∷ d.sources) d.mask_scripts
                (All-map _ _ (λ b home. ground (arith, home)) d.branches h.homes) h)))

  pub delete_failed_rows-IsSound :
      (name : String) → IsSound (committed db (delete_failed_rows name db))
  unfolding delete_failed_rows
  delete_failed_rows-IsSound name =
      IsSound-if db
        (exists_where
          (λ b. exists_where (λ x. x.id == b.source_id && failed_named name x) db.sources)
          db.branches)
        _ _ (λ _. s)
        (λ unused.
          sources-IsSound db _ _
            (All-map _ _
              (λ b h.
                exists-delete_apart (has_source_id b.source_id) (failed_named name) db.sources h.0
                  h.1)
              db.branches
              (All-both _ _ db.branches s.homes (All-of_not_exists _ db.branches unused)))
            s)

  pub create_source-IsSound :
      (p : Platform) (x : Source) → IsSound (committed db (create_source p c x db))
  unfolding create_source
  create_source-IsSound p x = checked _ (validate_pg_version x.pg_version) (
      checked _ (validate_image p x.image)
        (from_rows (delete_failed_rows x.name db) (delete_failed_rows-IsSound x.name)))
    where
      from_rows :
          (r : Result (ℕ × Db))
          → IsSound (committed db r)
          → IsSound (committed db (after_delete c (new_source c x) r))
      from_rows (ok (n, d)) h = insert_source-IsSound d h (new_source c x)
      from_rows (err e) h = s

      checked :
          (r : Result (Source × Db)) (o : Option Error)
          → IsSound (committed db r)
          → IsSound (committed db (unless_invalid o r))
      checked r none h = h
      checked r (some e) h = s

pub stamp-KeepsRow : (id name : String) (db : Db) → KeepsRow (stamp id name db)
stamp-KeepsRow id name db t = ground arith

module _ (c : Call) (id : String) (db : Db) (s : IsSound db) where
  -- Each branch of another source keeps its source.
  homes_after :
      All
        (HasHome (delete_where (has_source_id id) db.sources))
        (delete_where (λ b. b.source_id == id) db.branches)
  homes_after =
      All-delete (HasHome db.sources) _ (λ b. b.source_id == id)
        (λ b h apart.
          exists-delete (has_source_id b.source_id) (has_source_id id) db.sources
            (λ x here. ground (arith, eq_iff x.id b.source_id)) h)
        db.branches s.homes

  rows_removed-IsSound :
      (name : String) (row : Transition) (ls : List Layer) (ms : List MaskScript)
      → is_branch_entity row.entity ≡ false
      → IsSound (record {
        sources = delete_where (has_source_id id) db.sources;
        branches = delete_where (λ b. b.source_id == id) db.branches;
        layers = ls;
        transitions = row ∷ map (stamp id name db) db.transitions;
        mask_scripts = ms;
      })
  unfolding last_state
  rows_removed-IsSound name row ls ms about_source = record {
    ids = λ i. le_trans (count-delete-le (has_id i) _ db.branches) (s.ids i);
    names = λ n. le_trans (count-delete-le (live_with_name n) _ db.branches) (s.names n);
    states =
        All-delete (λ b. last_state b.id db.transitions ≡ of_branch b.state) _ _
          (λ b h _. ground (
            arith,
            about_source,
            h,
            last_state-map (stamp id name db) (stamp-KeepsRow id name db) b.id db.transitions,
          ))
          db.branches s.states;
    trail = (
      (λ h. absurd (ground arith)),
      IsTrail-map (stamp id name db) (stamp-KeepsRow id name db) db.transitions s.trail,
    );
    homes = homes_after;
  }

  pub delete_source-IsSound : IsSound (committed db (delete_source c id db))
  unfolding delete_source
  delete_source-IsSound = from_row (find_source id db)
    where
      from_row : (o : Option Source) → IsSound (committed db (delete_found c id o db))
      from_row none = s
      from_row (some x) =
          IsSound-if db
            (all_parents_exist (delete_where (λ l. l.source_id == id) db.layers)
              (delete_where (λ l. l.source_id == id) db.layers))
            _ _ (λ _. rows_removed-IsSound x.name _ _ _ refl) (λ _. s)
