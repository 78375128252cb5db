-- ===== src/Registry/Queries.antt =====
-- The reads of internal/registry/registry.go that other parts decide by: lookups, counts, the used and
-- the live volumes, and the rows that reconcile works on.
use pgoverlay.Base.{
  ℕ, Bool, true, false, not, ◌&&◌, ◌||◌, none, some, List, [], ◌∷◌, ◌++◌, String, ◌==◌, text_lt,
  count_where, select_where, find_where, exists_where, map,
}
use pgoverlay.Registry.Types.{
  creating, ready, failed, resetting, destroying, branch, no_such, Result, ok, err, Source, Branch,
  Transition, Db, is_branch_entity,
}
use pgoverlay.Registry.Sql.{is_live, in_state}
use pgoverlay.Registry.Updates.{Platform, ms_cutoff, is_stuck}
use pgoverlay.Registry.Sources.{is_stuck_source}

abbrev pub live_with_name : String → Branch → Bool
live_with_name name b = b.name == name && is_live b

-- GetBranchByName
unfoldable pub get_branch_by_name : String → Db → Result Branch
get_branch_by_name name db = elim (find_where (live_with_name name) db.branches) [
  | none ↦ err (no_such branch name)
  | some b ↦ ok b
]

-- ListLiveBranches
unfoldable pub list_live_branches : Db → List Branch
list_live_branches db = select_where is_live db.branches

-- ListExpiredBranches
unfoldable pub list_expired_branches : String → Db → List Branch
list_expired_branches now db =
    select_where
      (λ b.
        (in_state ready b || in_state failed b)
        && not (b.expires_at == "")
        && text_lt b.expires_at now)
      db.branches

-- ListStuckBranches
unfoldable pub list_stuck_branches : Platform → String → Db → List Branch
list_stuck_branches p before db = select_where (is_stuck (ms_cutoff p before)) db.branches

-- ListStuckDestroyingBranches
unfoldable pub list_stuck_destroying_branches : Platform → String → Db → List Branch
list_stuck_destroying_branches p before db =
    select_where (λ b. in_state destroying b && text_lt b.updated_at (ms_cutoff p before))
      db.branches

-- ListStuckSources
unfoldable pub list_stuck_sources : Platform → String → Db → List Source
list_stuck_sources p before db = select_where (is_stuck_source (ms_cutoff p before)) db.sources

-- CountLiveBranches
unfoldable pub count_live_branches : Db → ℕ
count_live_branches db = count_where is_live db.branches

-- CountLiveBranchesBySource
unfoldable pub count_live_branches_by_source : String → Db → ℕ
count_live_branches_by_source id db = count_where (λ b. b.source_id == id && is_live b) db.branches

-- CountLiveBranchesByVolume
unfoldable pub count_live_branches_by_volume : String → Db → ℕ
count_live_branches_by_volume v db =
    count_where (λ b. b.source_volume == v && is_live b) db.branches

-- CountLiveBranchesByRWVolume
unfoldable pub count_live_branches_by_rw_volume : String → Db → ℕ
count_live_branches_by_rw_volume v db = count_where (λ b. b.rw_volume == v && is_live b) db.branches

abbrev pub has_base : Branch → Bool
has_base b = elim b.base_layer_id [ none ↦ false | some l ↦ true ]

-- CountLiveBranchesReferencingRW
unfoldable pub count_live_branches_referencing_rw : String → String → Db → ℕ
count_live_branches_referencing_rw name rw db =
    count_where
      (λ b.
        is_live b
        && not (b.name == name)
        && (b.source_volume == rw || (b.parent_branch_name == name && not (has_base b))))
      db.branches

-- InFlightChildren
unfoldable pub in_flight_children : String → Db → List String
in_flight_children name db =
    map (λ b. b.name)
      (select_where (λ b. in_state creating b && b.parent_branch_name == name) db.branches)

-- VolumeNameUsed
unfoldable pub volume_name_used : String → Db → Bool
volume_name_used v db =
    exists_where (λ b. b.rw_volume == v) db.branches
    || (exists_where (λ b. b.source_volume == v) db.branches
        || (exists_where (λ b. b.pending_volume == v) db.branches
            || (exists_where (λ l. l.volume == v) db.layers
                || (exists_where (λ s. s.volume == v) db.sources
                    || exists_where (λ s. s.pending_volume == v) db.sources))))

abbrev pub claims : Branch → Bool
claims b = in_state creating b || in_state resetting b

-- LiveVolumeSet; the texts that are not "" are its members.
unfoldable pub live_volume_set : Db → List String
live_volume_set db =
    select_where (λ v. not (v == ""))
      (map (λ b. b.rw_volume) (select_where is_live db.branches)
        ++ (map (λ b. b.source_volume) (select_where is_live db.branches)
            ++ (map (λ s. s.volume) db.sources
                ++ (map (λ l. l.volume) db.layers
                    ++ (map (λ b. b.pending_volume) (select_where claims db.branches)
                        ++ map (λ s. s.pending_volume) db.sources)))))

-- The rows that branchHistoryQuery selects, oldest first
abbrev in_history : String → Db → Transition → Bool
in_history name db t =
    is_branch_entity t.entity
    && (exists_where (λ b. b.id == t.entity_id && b.name == name) db.branches
        || (not (t.entity_name == "") && t.entity_name == name))

abbrev oldest_first : List Transition → List Transition → List Transition
oldest_first [] done = done
oldest_first (t ∷ rest) done = oldest_first rest (t ∷ done)

-- BranchHistory
unfoldable pub branch_history : String → Db → Result (List Transition)
branch_history name db = elim (select_where (in_history name db) db.transitions) [
  | [] ↦ err (no_such branch name)
  | t ∷ rest ↦ ok (oldest_first (t ∷ rest) [])
]
