-- ===== src/Registry/Trail.antt =====
-- The audit trail as a history: the state that it records for a branch, and what makes each of its rows
-- legal.
use pgoverlay.Base.{
  Bool, true, false, ◌&&◌, ◌||◌, ◌≡◌, refl, ◌⊎◌, List, [], ◌∷◌, String, ◌==◌, eq_iff, arith,
  if◌then◌else◌, map,
}
use pgoverlay.Registry.Types.{
  creating, branch_state_eq, StateText, blank, of_branch, source, branch, Transition, Db,
  legal_branch_transition, is_branch_entity,
}
use pgoverlay.Registry.Sql.{Call, journal}

abbrev pub concerns : String → Transition → Bool
concerns id t = is_branch_entity t.entity && t.entity_id == id

-- The state that the newest row about a branch records.
unfoldable pub last_state : String → List Transition → StateText
last_state id [] = blank
last_state id (t ∷ rest) =
    let older = last_state id rest in if concerns id t then t.to_state else older

-- The edges of the branch machine, with the creation and with the rows that only note an event.
abbrev pub edge : StateText → StateText → Bool
edge blank (of_branch creating) = true
edge (of_branch from) (of_branch to) = branch_state_eq from to || legal_branch_transition from to
edge _ _ = false

-- A row about a branch follows an edge, from the state that the rows before it record.
abbrev pub IsStep : Transition → List Transition → Type 0
IsStep t older =
    is_branch_entity t.entity ≡ true
    → (edge t.from_state t.to_state ≡ true)
      × ((t.from_state ≡ blank) ⊎ (t.from_state ≡ last_state t.entity_id older))

abbrev pub IsTrail : List Transition → Type 0
IsTrail [] = Unit
IsTrail (t ∷ older) = IsStep t older × IsTrail older

module _ (c : Call) (id : String) (from to : StateText) (reason : String) (db : Db) where
  pub last_state-journal_self :
      last_state id (journal c branch id from to reason db).transitions ≡ to
  unfolding last_state journal
  last_state-journal_self = ground (arith, eq_iff id id)

  pub last_state-journal_ne :
      (j : String)
      → (j == id) ≡ false
      → last_state j (journal c branch id from to reason db).transitions
        ≡ last_state j db.transitions
  unfolding last_state journal
  last_state-journal_ne j h = ground (arith, eq_iff id j, eq_iff j id)

  pub last_state-journal_source :
      (j : String)
      → last_state j (journal c source id from to reason db).transitions
        ≡ last_state j db.transitions
  unfolding last_state journal
  last_state-journal_source j = refl

  pub IsTrail-journal :
      edge from to ≡ true
      → ((from ≡ blank) ⊎ (from ≡ last_state id db.transitions))
      → IsTrail db.transitions
      → IsTrail (journal c branch id from to reason db).transitions
  unfolding journal
  IsTrail-journal legal prior old = ((λ _. (legal, prior)), old)

  pub IsTrail-journal_source :
      IsTrail db.transitions → IsTrail (journal c source id from to reason db).transitions
  unfolding journal
  IsTrail-journal_source old = ((λ h. absurd (ground arith)), old)

-- A rewrite of the rows' `entity_name` changes no recorded state.
module _ (f : Transition → Transition) where
  abbrev pub KeepsRow : Type 0
  KeepsRow =
      (t : Transition)
      → ((f t).entity ≡ t.entity)
        × ((f t).entity_id ≡ t.entity_id)
        × ((f t).from_state ≡ t.from_state)
        × ((f t).to_state ≡ t.to_state)

  pub last_state-map :
      KeepsRow → (id : String) (ts : List Transition) → last_state id (map f ts) ≡ last_state id ts
  unfolding last_state
  last_state-map keep id [] = refl
  last_state-map keep id (t ∷ ts) = ground (arith, keep t, last_state-map keep id ts)

  pub IsTrail-map : KeepsRow → (ts : List Transition) → IsTrail ts → IsTrail (map f ts)
  IsTrail-map keep [] h = tt
  IsTrail-map keep (t ∷ ts) h = (
    (λ e. ground (arith, keep t, h.0, last_state-map keep t.entity_id ts)),
    IsTrail-map keep ts h.1,
  )
