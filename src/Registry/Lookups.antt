-- ===== src/Registry/Lookups.antt =====
-- The single-row reads of internal/registry/registry.go and its lists of layers and masking scripts.
use pgoverlay.Base.{
  Option, none, some, List, [], ◌∷◌, String, ◌==◌, ltb, text_lt, if◌then◌else◌, select_where,
  reverse,
}
use pgoverlay.Registry.Types.{
  source, not_found, no_such, Result, ok, err, Source, Branch, Layer, MaskScript, Db,
}
use pgoverlay.Registry.Sql.{find_branch}
use pgoverlay.Registry.Sources.{find_source, live_named, failed_named}

-- GetBranchByID
unfoldable pub get_branch_by_id : String → Db → Result Branch
get_branch_by_id id db = elim (find_branch id db) [ none ↦ err not_found | some b ↦ ok b ]

-- GetSourceByID
unfoldable pub get_source_by_id : String → Db → Result Source
get_source_by_id id db = elim (find_source id db) [ none ↦ err not_found | some s ↦ ok s ]

abbrev later : Source → Option Source → Option Source
later s none = some s
later s (some t) = if text_lt s.created_at t.created_at then some t else some s

abbrev newest : List Source → Option Source
newest [] = none
newest (s ∷ rest) = later s (newest rest)

-- GetSourceByName: failed rows may share a name with a live one, which comes first.
unfoldable pub get_source_by_name : String → Db → Result Source
get_source_by_name name db = elim (newest (select_where (live_named name) db.sources)) [
  | some s ↦ ok s
  | none ↦ elim (newest (select_where (failed_named name) db.sources)) [
    | some s ↦ ok s
    | none ↦ err (no_such source name)
  ]
]

abbrev insert_script : MaskScript → List MaskScript → List MaskScript
insert_script m [] = m ∷ []
insert_script m (n ∷ rest) =
    let tail = insert_script m rest in if ltb n.ord m.ord then n ∷ tail else m ∷ n ∷ rest

abbrev by_ord : List MaskScript → List MaskScript
by_ord [] = []
by_ord (m ∷ rest) = insert_script m (by_ord rest)

-- GetMaskScripts
unfoldable pub get_mask_scripts : String → Db → List MaskScript
get_mask_scripts id db = by_ord (select_where (λ m. m.source_id == id) db.mask_scripts)

-- ListLayersBySource
unfoldable pub list_layers_by_source : String → Db → List Layer
list_layers_by_source id db = reverse (select_where (λ l. l.source_id == id) db.layers)
