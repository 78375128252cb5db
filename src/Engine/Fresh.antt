-- ===== src/Engine/Fresh.antt =====
-- What freshBranchLayer finds: the lowest generation of a name that no row has used.
use pgoverlay.Base.{
  ℕ, zero, suc, ◌+◌, ◌-◌, ◌≤◌, ◌<◌, Bool, true, false, ◌≡◌, refl, sym, ap, ◌∙◌, ◌⊎◌, inl, inr,
  Option, none, some, String, arith, leb, leb→le, if◌then◌else◌, Bool-cases,
}
use pgoverlay.Cow.{branch_rw_volume_name_gen}
use pgoverlay.Registry.Types.{Db}
use pgoverlay.Registry.Queries.{volume_name_used}
use pgoverlay.Engine.Layers.{pick_layer, free_layer, max_layer_generations}

module _ (name : String) (db : Db) where
  abbrev pub is_used : ℕ → Bool
  is_used gen = volume_name_used (branch_rw_volume_name_gen name gen) db

  -- The search from a generation on, over as many as are left
  abbrev pub Search : Option String → ℕ → ℕ → Type 0
  Search found gen left =
      ((found ≡ none) × ((i : ℕ) → gen ≤ i → i < gen + left → is_used i ≡ true))
      ⊎ ((g : ℕ) × (found ≡ some (branch_rw_volume_name_gen name g))
          × (gen ≤ g)
          × (g < gen + left)
          × (is_used g ≡ false)
          × ((i : ℕ) → gen ≤ i → i < g → is_used i ≡ true))

  used_from :
      (gen : ℕ) (below : ℕ → Type 0)
      → is_used gen ≡ true
      → ((i : ℕ) → suc gen ≤ i → below i → is_used i ≡ true)
      → (i : ℕ) → gen ≤ i
      → below i
      → is_used i ≡ true
  used_from gen below here rest i le lt = elim (Bool-cases (leb (suc gen) i)) [
    | inl above ↦ rest i (leb→le (suc gen) i above) lt
    | inr not_above ↦
        let same : gen ≡ i = ground (arith, le, not_above) in ap is_used (sym same) ∙ here
  ]

  pick_layer_lem : (left gen : ℕ) → Search (pick_layer name db left gen) gen left
  unfolding pick_layer
  pick_layer_lem zero gen = inl (refl, λ i le lt. absurd (omega arith))
  pick_layer_lem (suc left) gen = elim (Bool-cases (is_used gen)) [
    | inr free ↦
        rw free (inr (gen, refl, omega arith, omega arith, free, λ i le lt. absurd (omega arith)))
    | inl used ↦ rw used (elim (pick_layer_lem left (suc gen)) [
      | inl (nothing, all_used) ↦ inl (
        nothing,
        used_from gen (λ i. i < gen + suc left) used λ i le lt. all_used i le (omega arith),
      )
      | inr (g, found, le, lt, free, lower_used) ↦
          inr (g, found, omega arith, omega arith, free, used_from gen (λ i. i < g) used lower_used)
    ])
  ]

  -- From generation `min_gen` on, or from the first if that is 0, freshBranchLayer takes the lowest
  -- generation below `min_gen` + 10000 whose volume name no row has used; it finds none only if rows have
  -- used every one of them.
  pub free_layer_lem :
      (min_gen : ℕ)
      → Search
          (free_layer name min_gen db)
          (if leb 1 min_gen then min_gen else 1)
          (min_gen + max_layer_generations - (if leb 1 min_gen then min_gen else 1))
  unfolding free_layer
  free_layer_lem min_gen = pick_layer_lem _ _
