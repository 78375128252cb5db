-- ===== src/Registry/Growth.antt =====
-- The audit trail only grows: no call removes a row of it or rewrites one, but for the name that the
-- removal of a source stamps on its rows.
use pgoverlay.Base.{
  ℕ, text_lt, delete_where, Bool, true, false, not, ◌&&◌, ◌≡◌, refl, ap, Option, none, some, List,
  ◌∷◌, String, ◌==◌, arith, if◌then◌else◌, nat_eq, map, inl, inr, exists_where, count_where,
  Bool-cases,
}
use pgoverlay.Registry.Types.{
  SourceState, failed, resetting, branch_state_eq, legal_branch_transition, legal_source_transition,
  BranchState, blank, Result, ok, err, Error, Source, Branch, Layer, Transition, Db,
  is_branch_entity,
}
use pgoverlay.Registry.Sql.{
  is_live, in_state, has_id, parent_exists, Call, committed, journal, find_branch, update_branches,
  update_state, insert_branch, insert_layer,
}
use pgoverlay.Registry.Branches.{
  create_branch, lost_race, swap_state, transition_from, transition_branch_set, transition_branch,
  mark_branch_ready,
}
use pgoverlay.Registry.Updates.{
  ready_on, ms_cutoff, Platform, update_or_missing, store_password, set_branch_password,
  set_branch_container, touch_branch, note_found, note_branch, set_branch_pending_volume,
  update_branch_endpoint, update_branch_endpoint_noted, fail_ready_branch, fail_stuck_found,
  fail_stuck_branch,
}
use pgoverlay.Registry.Sources.{
  failed_named, live_named, has_source_id, is_stuck_source, source_in, all_parents_exist,
  validate_pg_version, validate_image, delete_failed_rows, delete_failed_sources, new_source,
  insert_source, after_delete, unless_invalid, create_source, find_source, source_from,
  set_source_state, set_source_pending_volume, bumped, bump_source_generation, touch_source,
  fail_stuck_source, set_mask_scripts, stamp, delete_found, delete_source,
}
use pgoverlay.Registry.Layers.{
  Instance, is_layer, is_child_of, create_layer, delete_layer, freeze_child, swap_parent,
  freeze_from, commit_freeze,
}
use pgoverlay.Registry.Trail.{KeepsRow}
use pgoverlay.Registry.Run.{
  Op, branch_create, branch_transition, branch_ready, branch_password, branch_container,
  branch_touch, branch_note, branch_pending, branch_endpoint, branch_endpoint_noted,
  branch_fail_ready, branch_fail_stuck, source_create, source_clear_failed, source_state,
  source_pending, source_bump, source_touch, source_fail_stuck, source_scripts, source_delete,
  layer_create, layer_delete, freeze, apply,
}

-- A row that begins the history of a branch is about the branch that the call creates.
abbrev pub BeginsOwn : Call → Transition → Type 0
BeginsOwn c t = is_branch_entity t.entity ≡ true → t.from_state ≡ blank → t.entity_id ≡ c.new_id

-- Every column of a row but the name that it shows is as it was.
abbrev pub ChangesNameOnly : (Transition → Transition) → Type 0
ChangesNameOnly f = (t : Transition) → f t ≡ record t { entity_name = (f t).entity_name }

pub ChangesNameOnly-KeepsRow : (f : Transition → Transition) → ChangesNameOnly f → KeepsRow f
ChangesNameOnly-KeepsRow f only t =
    let same = only t in
    (
      ap (λ r. r.entity) same,
      ap (λ r. r.entity_id) same,
      ap (λ r. r.from_state) same,
      ap (λ r. r.to_state) same,
    )

stamp-ChangesNameOnly : (id name : String) (db : Db) → ChangesNameOnly (stamp id name db)
stamp-ChangesNameOnly id name db t = elim (Bool-cases (is_branch_entity t.entity)) [
  | inl about ↦
      elim (Bool-cases (exists_where (λ b. b.id == t.entity_id && b.source_id == id) db.branches)) [
        | inl own ↦ rw (about, own) refl
        | inr other ↦ rw (about, other) refl
      ]
  | inr about ↦ elim (Bool-cases (t.entity_id == id)) [
    | inl own ↦ rw (about, own) refl
    | inr other ↦ rw (about, other) refl
  ]
]

-- `new` is `old` with rows added on top by the call `c`, or `old` with only the names in its rows changed.
pub data Extends (c : Call) (old : List Transition) : List Transition → Type 0 where
  same : Extends c old old
  row :
      {new : List Transition} (t : Transition)
      → BeginsOwn c t
      → Extends c old new
      → Extends c old (t ∷ new)
  renamed : (f : Transition → Transition) → ChangesNameOnly f → Extends c old (map f old)

abbrev Grows : {A : Type 0} → Call → Db → Result (A × Db) → Type 0
Grows c db r = Extends c db.transitions (committed db r).transitions

Grows-if :
    {A : Type 0} (c : Call) (db : Db) (b : Bool) (x y : Result (A × Db))
    → Grows c db x
    → Grows c db y
    → Grows c db (if b then x else y)
Grows-if c db true x y h k = h
Grows-if c db false x y h k = k

module _ (c : Call) (db : Db) where
  create_branch-Grows : (b : Branch) → Grows c db (create_branch c b db)
  unfolding create_branch insert_branch journal
  create_branch-Grows b = elim (Bool-cases (exists_where (λ o. o.id == c.new_id) db.branches)) [
    | inl e ↦ rw e same
    | inr new_id ↦
        elim (Bool-cases (exists_where (λ o. is_live o && o.name == b.name) db.branches)) [
          | inl e ↦ rw (new_id, e) same
          | inr new_name ↦ elim (Bool-cases (exists_where (λ x. x.id == b.source_id) db.sources)) [
            | inr e ↦ rw (new_id, new_name, e) same
            | inl home ↦ rw (new_id, new_name, home) (row _ (λ h e. ground arith) same)
          ]
        ]
  ]

  transition_branch_set-Grows :
      (id : String) (to : BranchState) (reason : String) (set : Branch → Branch)
      → Grows c db (transition_branch_set c id to reason set db)
  unfolding transition_branch_set swap_state journal update_state update_branches
  transition_branch_set-Grows id to reason set = from_row (find_branch id db)
    where
      lost : (o : Option Branch) → Grows c db (lost_race to o)
      lost none = same
      lost (some b) = same

      from_row : (o : Option Branch) → Grows c db (transition_from c id to reason set o db)
      from_row none = same
      from_row (some b) =
          Grows-if c db (legal_branch_transition b.state to) _ _
            (Grows-if c db
              (nat_eq (count_where (λ r. r.id == id && in_state b.state r) db.branches) 0) _ _
              (lost (find_branch id db)) (row _ (λ h e. ground arith) same))
            same

  update_or_missing-Grows :
      (q : Branch → Bool) (f : Branch → Branch) → Grows c db (update_or_missing q f db)
  unfolding update_or_missing update_branches
  update_or_missing-Grows q f = Grows-if c db (nat_eq (count_where q db.branches) 0) _ _ same same

  store_password-Grows : (id : String) (r : Result String) → Grows c db (store_password c id r db)
  unfolding store_password
  store_password-Grows id (ok v) = update_or_missing-Grows _ _
  store_password-Grows id (err e) = same

  note_found-Grows :
      (id reason : String) (o : Option Branch) → Grows c db (note_found c id reason o db)
  unfolding note_found journal update_branches
  note_found-Grows id reason none = same
  note_found-Grows id reason (some b) = row _ (λ h e. ground arith) same

  update_branch_endpoint_noted-Grows :
      (id from container host : String) (port : ℕ) (reason : String)
      → Grows c db (update_branch_endpoint_noted c id from container host port reason db)
  unfolding update_branch_endpoint_noted journal update_branches
  update_branch_endpoint_noted-Grows id from container host port reason =
      Grows-if c db (nat_eq (count_where (ready_on id from) db.branches) 1) _ _
        (row _ (λ h e. ground arith) same) same

  fail_ready_branch-Grows :
      (id container reason : String) → Grows c db (fail_ready_branch c id container reason db)
  unfolding fail_ready_branch journal update_state update_branches
  fail_ready_branch-Grows id container reason =
      Grows-if c db (nat_eq (count_where (ready_on id container) db.branches) 1) _ _
        (row _ (λ h e. ground arith) (row _ (λ h e. ground arith) same)) same

  fail_stuck_found-Grows :
      (id before reason : String) (o : Option Branch)
      → Grows c db (fail_stuck_found c id before reason o db)
  unfolding fail_stuck_found journal update_state update_branches
  fail_stuck_found-Grows id before reason none = same
  fail_stuck_found-Grows id before reason (some b) =
      Grows-if c db (legal_branch_transition b.state failed) _ _
        (Grows-if c db
          (nat_eq
            (count_where (λ o. o.id == id && in_state b.state o && text_lt o.updated_at before)
              db.branches)
            1)
          _ _ (row _ (λ h e. ground arith) same) same)
        same

module _ (c : Call) (db : Db) where
  insert_source-Grows :
      (x : Source) (d : Db)
      → Extends c db.transitions d.transitions
      → Grows c db (insert_source c x d)
  unfolding insert_source journal
  insert_source-Grows x d h = Grows-if c db (exists_where (λ o. o.id == x.id) d.sources) _ _ same (
      Grows-if c db (exists_where (live_named x.name) d.sources) _ _ same
        (row _ (λ h e. ground arith) h))

  delete_failed_rows-Grows : (name : String) → Grows c db (delete_failed_rows name db)
  unfolding delete_failed_rows
  delete_failed_rows-Grows name =
      Grows-if c db
        (exists_where
          (λ b. exists_where (λ x. x.id == b.source_id && failed_named name x) db.sources)
          db.branches)
        _ _ same same

  create_source-Grows : (p : Platform) (x : Source) → Grows c db (create_source p c x db)
  unfolding create_source
  create_source-Grows p x = checked _ (validate_pg_version x.pg_version) (
      checked _ (validate_image p x.image)
        (from_rows (delete_failed_rows x.name db) (delete_failed_rows-Grows x.name)))
    where
      checked :
          (r : Result (Source × Db)) (o : Option Error)
          → Grows c db r
          → Grows c db (unless_invalid o r)
      checked r none h = h
      checked r (some e) h = same

      from_rows :
          (r : Result (ℕ × Db)) → Grows c db r → Grows c db (after_delete c (new_source c x) r)
      from_rows (ok (n, d)) h = insert_source-Grows (new_source c x) d h
      from_rows (err e) h = same

  source_from-Grows :
      (id : String) (to : SourceState) (reason : String) (o : Option Source)
      → Grows c db (source_from c id to reason o db)
  unfolding source_from journal
  source_from-Grows id to reason none = same
  source_from-Grows id to reason (some x) =
      Grows-if c db (not (legal_source_transition x.state to)) _ _ same (
        Grows-if c db (nat_eq (count_where (λ o. o.id == id && source_in x.state o) db.sources) 0) _
          _ same (row _ (λ h e. ground arith) same))

  bump_source_generation-Grows :
      (id volume : String) → Grows c db (bump_source_generation c id volume db)
  unfolding bump_source_generation bumped journal
  bump_source_generation-Grows id volume = from_row _ (find_source id _) same
    where
      from_row :
          (d : Db) (o : Option Source)
          → Extends c db.transitions d.transitions
          → Grows c db (bumped c id volume o d)
      from_row d none h = same
      from_row d (some x) h = row _ (λ h e. ground arith) h

  delete_found-Grows : (id : String) (o : Option Source) → Grows c db (delete_found c id o db)
  unfolding delete_found
  delete_found-Grows id none = same
  delete_found-Grows id (some x) =
      Grows-if c db
        (all_parents_exist (delete_where (λ l. l.source_id == id) db.layers)
          (delete_where (λ l. l.source_id == id) db.layers))
        _ _
        (row _ (λ h e. ground arith)
          (renamed (stamp id x.name db) (stamp-ChangesNameOnly id x.name db)))
        same

  create_layer-Grows : (l : Layer) → Grows c db (create_layer c l db)
  unfolding create_layer insert_layer
  create_layer-Grows l = elim (Bool-cases (exists_where (λ o. o.id == c.new_id) db.layers)) [
    | inl e ↦ rw e same
    | inr e ↦ elim (Bool-cases (parent_exists l.parent_layer_id db.layers)) [
      | inl f ↦ rw (e, f) same
      | inr f ↦ rw (e, f) same
    ]
  ]

  delete_layer-Grows : (id : String) → Grows c db (delete_layer id db)
  unfolding delete_layer
  delete_layer-Grows id =
      Grows-if c db (exists_where (is_layer id) db.layers) _ _
        (Grows-if c db (exists_where (λ l. is_child_of id l && not (l.id == id)) db.layers) _ _ same
          same)
        same

  freeze_from-Grows :
      (o : Option Branch) (child volume : String) (fresh : Instance) (reason : String)
      → Grows c db (freeze_from c o child volume fresh reason db)
  unfolding freeze_from insert_layer freeze_child swap_parent journal update_state update_branches
  freeze_from-Grows none child volume fresh reason = same
  freeze_from-Grows (some b) child volume fresh reason =
      Grows-if c db (branch_state_eq b.state resetting) _ _
        (elim (Bool-cases (exists_where (λ o. o.id == c.new_id) db.layers)) [
          | inl e ↦ rw e same
          | inr e ↦ elim (Bool-cases (parent_exists b.base_layer_id db.layers)) [
            | inl f ↦
                rw (e, f)
                  (Grows-if c db (exists_where (has_id child) _) _ _
                    (row _ (λ h e. ground arith) same) same)
            | inr f ↦ rw (e, f) same
          ]
        ])
        same

module _ (p : Platform) (encrypt : String → Result String) where
  -- No call removes a row of the audit trail, and the only column of a row that a call ever changes is the
  -- name of its entity: each call leaves the trail as it was, or adds rows on top of it, below which either
  -- nothing has changed or only names have. A row that begins a branch's history is about the new branch.
  pub audit_trail_grows :
      (c : Call) (op : Op) (db : Db)
      → Extends c db.transitions (apply p encrypt c op db).transitions
  unfolding apply transition_branch mark_branch_ready set_branch_password set_branch_container
      touch_branch note_branch set_branch_pending_volume update_branch_endpoint fail_stuck_branch
      update_branches delete_failed_sources set_source_state set_source_pending_volume touch_source
      fail_stuck_source journal set_mask_scripts delete_source commit_freeze
  audit_trail_grows c (branch_create b) db = create_branch-Grows c db b
  audit_trail_grows c (branch_transition id to reason) db =
      transition_branch_set-Grows c db id to reason _
  audit_trail_grows c (branch_ready id container host port) db =
      transition_branch_set-Grows c db id _ _ _
  audit_trail_grows c (branch_password id password) db =
      store_password-Grows c db id (encrypt password)
  audit_trail_grows c (branch_container id container) db = same
  audit_trail_grows c (branch_touch id) db = same
  audit_trail_grows c (branch_note id reason) db = note_found-Grows c db id reason _
  audit_trail_grows c (branch_pending id volume) db = update_or_missing-Grows c db _ _
  audit_trail_grows c (branch_endpoint id from container host port) db = same
  audit_trail_grows c (branch_endpoint_noted id from container host port reason) db =
      update_branch_endpoint_noted-Grows c db id from container host port reason
  audit_trail_grows c (branch_fail_ready id container reason) db =
      fail_ready_branch-Grows c db id container reason
  audit_trail_grows c (branch_fail_stuck id before reason) db =
      fail_stuck_found-Grows c db id _ reason _
  audit_trail_grows c (source_create x) db = create_source-Grows c db p x
  audit_trail_grows c (source_clear_failed name) db = delete_failed_rows-Grows c db name
  audit_trail_grows c (source_state id to reason) db = source_from-Grows c db id to reason _
  audit_trail_grows c (source_pending id volume) db =
      Grows-if c db (nat_eq (count_where (has_source_id id) db.sources) 0) _ _ same same
  audit_trail_grows c (source_bump id volume) db = bump_source_generation-Grows c db id volume
  audit_trail_grows c (source_touch id) db = same
  audit_trail_grows c (source_fail_stuck id before reason) db =
      Grows-if c db
        (nat_eq (count_where (λ x. x.id == id && is_stuck_source (ms_cutoff p before) x) db.sources)
          1)
        _ _ (row _ (λ h e. ground arith) same) same
  audit_trail_grows c (source_scripts id scripts) db = same
  audit_trail_grows c (source_delete id) db = delete_found-Grows c db id _
  audit_trail_grows c (layer_create l) db = create_layer-Grows c db l
  audit_trail_grows c (layer_delete id) db = delete_layer-Grows c db id
  audit_trail_grows c (freeze parent child volume fresh reason) db =
      freeze_from-Grows c db _ child volume fresh reason
