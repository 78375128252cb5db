-- ===== src/Registry/Sources.antt =====
-- The source operations of internal/registry/registry.go, masking scripts included.
use Prim.Native.String.{◌++◌}
use Prim.Native.String
use pgoverlay.Base.{
  ℕ, ◌+◌, Bool, true, false, not, ◌&&◌, ◌||◌, Option, none, some, List, [], ◌∷◌, String, ◌==◌,
  if◌then◌else◌, ltb, nat_eq, text_lt, update_where, count_where, delete_where, find_where,
  exists_where, decimal, map,
}
use pgoverlay.Registry.Types.{
  SourceState, seeding, source_failed, source_state_eq, StateText, blank, unknown, deleted,
  of_source, source, Error, not_found, already_exists, illegal_transition, invalid_image,
  unsupported_pg_version, constraint_failed, primary_key, foreign_key, Result, ok, err, Source,
  Branch, Layer, Transition, MaskScript, Db, legal_source_transition, is_branch_entity,
}
use pgoverlay.Registry.Actor.{actor_string}
use pgoverlay.Registry.Sql.{Call, Tx, has_id, journal, parent_exists}
use pgoverlay.Registry.Updates.{Platform, ms_cutoff}

abbrev pub supported_pg_versions : List String
supported_pg_versions = "14" ∷ "15" ∷ "16" ∷ "17" ∷ "18" ∷ []

abbrev contains_text : List String → String → Bool
contains_text [] v = false
contains_text (s ∷ rest) v = v == s || contains_text rest v

-- validatePGVersion
abbrev pub validate_pg_version : String → Option Error
validate_pg_version v =
    if v == ""
    then none
    else if contains_text supported_pg_versions v
    then none
    else some (unsupported_pg_version v)

-- validateImage
abbrev pub validate_image : Platform → String → Option Error
validate_image p image =
    if image == ""
    then none
    else if ltb 255 (String.len image) || not (p.image_ref_matches image)
    then some (invalid_image image)
    else none

abbrev pub source_in : SourceState → Source → Bool
source_in st s = source_state_eq s.state st

abbrev pub failed_named : String → Source → Bool
failed_named name s = s.name == name && source_in source_failed s

abbrev pub live_named : String → Source → Bool
live_named name s = s.name == name && not (source_in source_failed s)

-- deleteFailedSources; a branch of such a source would hold its row by the foreign key.
unfoldable pub delete_failed_rows : String → Tx ℕ
delete_failed_rows name db =
    let gone = λ (id : String). exists_where (λ s. s.id == id && failed_named name s) db.sources in
    if exists_where (λ b. gone b.source_id) db.branches
    then err (constraint_failed foreign_key)
    else ok (
      count_where (failed_named name) db.sources,
      record db {
        mask_scripts = delete_where (λ m. gone m.source_id) db.mask_scripts;
        sources = delete_where (failed_named name) db.sources;
      },
    )

-- DeleteFailedSources
unfoldable pub delete_failed_sources : String → Tx ℕ
unfolding delete_failed_rows
delete_failed_sources name = delete_failed_rows name

abbrev pub new_source : Call → Source → Source
new_source c s = record s {
  id = c.new_id;
  seed_via = if s.seed_via == "" then "basebackup" else s.seed_via;
  generation = 1;
  state = seeding;
  pending_volume = "";
  created_at = c.now;
  updated_at = c.now;
}

abbrev source_state_or_unknown : Option Source → StateText
source_state_or_unknown none = unknown
source_state_or_unknown (some s) = of_source s.state

-- INSERT INTO sources, under its primary key and the index sources_live_name, and the journal row
unfoldable pub insert_source : Call → Source → Tx Source
insert_source c s db =
    if exists_where (λ o. o.id == s.id) db.sources
    then err (constraint_failed primary_key)
    else if exists_where (live_named s.name) db.sources
    then err (
        already_exists source s.name
          (source_state_or_unknown (find_where (live_named s.name) db.sources)))
    else ok (
      s,
      journal c source s.id blank (of_source seeding) "created"
          (record db { sources = s ∷ db.sources }),
    )

abbrev pub after_delete : Call → Source → Result (ℕ × Db) → Result (Source × Db)
after_delete c s (ok (n, db)) = insert_source c s db
after_delete c s (err e) = err e

abbrev pub unless_invalid : {A : Type 0} → Option Error → Result A → Result A
unless_invalid none r = r
unless_invalid (some e) r = err e

-- CreateSourceCtx
unfoldable pub create_source : Platform → Call → Source → Tx Source
unfolding insert_source delete_failed_rows
create_source p c s db =
    let made = after_delete c (new_source c s) (delete_failed_rows s.name db) in
    unless_invalid (validate_pg_version s.pg_version)
      (unless_invalid (validate_image p s.image) made)

abbrev pub has_source_id : String → Source → Bool
has_source_id id s = s.id == id

unfoldable pub find_source : String → Db → Option Source
find_source id db = find_where (has_source_id id) db.sources

unfoldable pub source_from : Call → String → SourceState → String → Option Source → Tx (Unit {0})
source_from c id to reason none db = err not_found
source_from c id to reason (some s) db =
    let guard = λ (o : Source). o.id == id && source_in s.state o in
    let refused = illegal_transition source (of_source s.state) (of_source to) in
    if not (legal_source_transition s.state to)
    then err refused
    else if nat_eq (count_where guard db.sources) 0
    then err refused
    else ok (
      tt,
      journal c source id (of_source s.state) (of_source to) reason (record db {
        sources = update_where guard (λ o. record o { state = to; updated_at = c.now }) db.sources;
      }),
    )

-- SetSourceStateCtx
unfoldable pub set_source_state : Call → String → SourceState → String → Tx (Unit {0})
unfolding source_from
set_source_state c id to reason db = source_from c id to reason (find_source id db) db

-- SetSourcePendingVolume
unfoldable pub set_source_pending_volume : String → String → Tx (Unit {0})
set_source_pending_volume id volume db =
    if nat_eq (count_where (has_source_id id) db.sources) 0
    then err not_found
    else ok (
      tt,
      record db {
        sources =
            update_where (has_source_id id) (λ s. record s { pending_volume = volume }) db.sources;
      },
    )

unfoldable pub bumped : Call → String → String → Option Source → Tx (Unit {0})
bumped c id volume none db = err not_found
bumped c id volume (some s) db = ok (
  tt,
  journal c source id (of_source s.state) (of_source s.state)
      ("refreshed to generation " ++ decimal s.generation ++ " (" ++ volume ++ ")") db,
)

-- BumpSourceGenerationCtx: the row is read back after the UPDATE.
unfoldable pub bump_source_generation : Call → String → String → Tx (Unit {0})
unfolding bumped
bump_source_generation c id volume db =
    let after = record db {
      sources =
          update_where (has_source_id id)
            (λ s. record s {
              generation = s.generation + 1;
              volume = volume;
              pending_volume = "";
              updated_at = c.now;
            })
            db.sources;
    } in
    bumped c id volume (find_source id after) after

-- TouchSource
unfoldable pub touch_source : Call → String → Tx (Unit {0})
touch_source c id db = ok (
  tt,
  record db {
    sources = update_where (has_source_id id) (λ s. record s { updated_at = c.now }) db.sources;
  },
)

abbrev pub is_stuck_source : String → Source → Bool
is_stuck_source before s = source_in seeding s && text_lt s.updated_at before

-- FailStuckSource
unfoldable pub fail_stuck_source : Platform → Call → String → String → String → Tx Bool
fail_stuck_source p c id before reason db =
    let guard = λ (s : Source). s.id == id && is_stuck_source (ms_cutoff p before) s in
    if nat_eq (count_where guard db.sources) 1
    then ok (
      true,
      journal c source id (of_source seeding) (of_source source_failed) reason (record db {
        sources =
            update_where guard (λ s. record s { state = source_failed; updated_at = c.now })
              db.sources;
      }),
    )
    else ok (false, db)

abbrev number_scripts : String → List MaskScript → ℕ → List (String × String) → List MaskScript
number_scripts id kept i [] = kept
number_scripts id kept i ((name, sql) ∷ rest) =
    record { source_id = id; ord = i; name = name; sql = sql } ∷ number_scripts id kept (i + 1) rest

-- SetMaskScripts
unfoldable pub set_mask_scripts : String → List (String × String) → Tx (Unit {0})
set_mask_scripts id scripts db = ok (
  tt,
  record db {
    mask_scripts =
        number_scripts id (delete_where (λ m. m.source_id == id) db.mask_scripts) 0 scripts;
  },
)

abbrev name_or : String → Option Branch → String
name_or old none = old
name_or old (some b) = b.name

-- The two UPDATEs of DeleteSourceCtx that stamp names on the journal
abbrev pub stamp : String → String → Db → Transition → Transition
stamp id name db t =
    if is_branch_entity t.entity
    then (if exists_where (λ b. b.id == t.entity_id && b.source_id == id) db.branches
        then record t { entity_name = name_or "" (find_where (has_id t.entity_id) db.branches) }
        else t)
    else if t.entity_id == id
    then record t { entity_name = name }
    else t

abbrev pub all_parents_exist : List Layer → List Layer → Bool
all_parents_exist [] layers = true
all_parents_exist (l ∷ rest) layers =
    parent_exists l.parent_layer_id layers && all_parents_exist rest layers

unfoldable pub delete_found : Call → String → Option Source → Tx (Unit {0})
delete_found c id none db = err not_found
delete_found c id (some s) db =
    let layers = delete_where (λ (l : Layer). l.source_id == id) db.layers in
    if all_parents_exist layers layers
    then ok (
      tt,
      record {
        sources = delete_where (has_source_id id) db.sources;
        branches = delete_where (λ b. b.source_id == id) db.branches;
        layers = layers;
        transitions =
            record {
              entity = source;
              entity_id = id;
              from_state = of_source s.state;
              to_state = deleted;
              reason = "source removed";
              actor = actor_string c.ctx;
              entity_name = s.name;
              at = c.now;
            }
            ∷ map (stamp id s.name db) db.transitions;
        mask_scripts = delete_where (λ m. m.source_id == id) db.mask_scripts;
      },
    )
    else err (constraint_failed foreign_key)

-- DeleteSourceCtx; the foreign keys are checked at the commit.
unfoldable pub delete_source : Call → String → Tx (Unit {0})
unfolding delete_found
delete_source c id db = delete_found c id (find_source id db) db
