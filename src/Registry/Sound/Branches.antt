-- ===== src/Registry/Sound/Branches.antt =====
-- The branch operations keep the registry sound.
use pgoverlay.Base.{
  Bool, true, false, ◌&&◌, ◌≡◌, refl, sym, ap, ◌∙◌, ◌⊎◌, inl, inr, Option, none, some, List, String,
  ◌==◌, eq_iff, arith, nat_eq, All-map, count_where, Bool-cases, Option-cases, and_true,
}
use pgoverlay.Registry.Types.{
  BranchState, of_branch, branch, Result, Branch, Transition, Db, legal_branch_transition,
}
use pgoverlay.Registry.Sql.{
  Call, committed, has_id, in_state, journal, find_branch, update_branches,
}
use pgoverlay.Registry.Branches.{lost_race, swap_state, transition_from, transition_branch_set}
use pgoverlay.Registry.Updates.{
  update_or_missing, store_password, set_branch_password, set_branch_container, touch_branch,
  note_branch, set_branch_pending_volume,
}
use pgoverlay.Registry.Trail.{
  last_state, IsTrail-journal, last_state-journal_self, last_state-journal_ne,
}
use pgoverlay.Registry.Sound.Keys.{IsSound, KeepsNames, KeepsState, update_branches-IsSound}
use pgoverlay.Registry.Sound.Moves.{last_state-find, All-state_of_find, move-IsSound}

module _ (c : Call) (id : String) (to : BranchState) (reason : String) (set : Branch → Branch) where
  swap_state-IsSound :
      (db : Db) (from : BranchState)
      → KeepsNames set
      → legal_branch_transition from to ≡ true
      → last_state id db.transitions ≡ of_branch from
      → IsSound db
      → IsSound (committed db (swap_state c id to reason set from db))
  unfolding swap_state
  swap_state-IsSound db from keep legal prior s =
      elim (Bool-cases (nat_eq (count_where guard db.branches) 0)) [
        | inl e ↦ rw e (refused (find_branch id db))
        | inr e ↦ rw e (
            move-IsSound c id from to reason guard (λ b. record (set b) { updated_at = c.now }) db
              keep (λ b h. (and_true _ _ h).0)
              (All-map _ _ (λ b h here. ground (arith, h here)) db.branches
                (All-state_of_find id db from s prior))
              legal prior s)
      ]
    where
      guard : Branch → Bool
      guard b = b.id == id && in_state from b

      refused : (o : Option Branch) → IsSound (committed db (lost_race to o))
      refused none = s
      refused (some b) = s

  pub transition_branch_set-IsSound :
      (db : Db)
      → KeepsNames set
      → IsSound db
      → IsSound (committed db (transition_branch_set c id to reason set db))
  unfolding transition_branch_set
  transition_branch_set-IsSound db keep s = elim (Option-cases (find_branch id db)) [
    | inl e ↦ rw e s
    | inr (b, e) ↦ rw e (from_row b (last_state-find id db b s e))
  ]
    where
      from_row :
          (b : Branch)
          → last_state id db.transitions ≡ of_branch b.state
          → IsSound (committed db (transition_from c id to reason set (some b) db))
      from_row b prior = elim (Bool-cases (legal_branch_transition b.state to)) [
        | inl legal ↦ rw legal (swap_state-IsSound db b.state keep legal prior s)
        | inr illegal ↦ rw illegal s
      ]

-- A row of the trail that repeats the state which it records
pub note-IsSound :
    (c : Call) (id : String) (st : BranchState) (reason : String) (db : Db)
    → last_state id db.transitions ≡ of_branch st
    → IsSound db
    → IsSound (journal c branch id (of_branch st) (of_branch st) reason db)
unfolding journal
note-IsSound c id st reason db prior s = record {
  ids = s.ids;
  names = s.names;
  states = All-map _ _ (λ b h. recorded b h (Bool-cases (b.id == id))) db.branches s.states;
  trail =
      IsTrail-journal c id (of_branch st) (of_branch st) reason db (ground arith) (inr (sym prior))
        s.trail;
  homes = s.homes;
}
  where
    after : List Transition
    after = (journal c branch id (of_branch st) (of_branch st) reason db).transitions

    recorded :
        (b : Branch)
        → last_state b.id db.transitions ≡ of_branch b.state
        → ((b.id == id) ≡ true) ⊎ ((b.id == id) ≡ false)
        → last_state b.id after ≡ of_branch b.state
    recorded b h (inl e) =
        let same = (eq_iff b.id id).0 e in
        ap (λ i. last_state i after) same
        ∙ last_state-journal_self c id (of_branch st) (of_branch st) reason db
        ∙ sym prior
        ∙ ap (λ i. last_state i db.transitions) (sym same)
        ∙ h
    recorded b h (inr e) =
        last_state-journal_ne c id (of_branch st) (of_branch st) reason db b.id e ∙ h

update_or_missing-IsSound :
    (q : Branch → Bool) (f : Branch → Branch) (db : Db)
    → KeepsNames f
    → KeepsState f
    → IsSound db
    → IsSound (committed db (update_or_missing q f db))
unfolding update_or_missing
update_or_missing-IsSound q f db keep same s =
    elim (Bool-cases (nat_eq (count_where q db.branches) 0)) [
      | inl e ↦ rw e s
      | inr e ↦ rw e (update_branches-IsSound q f db keep same s)
    ]

module _ (c : Call) (id : String) (db : Db) (s : IsSound db) where
  pub set_branch_password-IsSound :
      (encrypt : String → Result String) (password : String)
      → IsSound (committed db (set_branch_password encrypt c id password db))
  unfolding set_branch_password
  set_branch_password-IsSound encrypt password = stored (encrypt password)
    where
      stored : (r : Result String) → IsSound (committed db (store_password c id r db))
      stored (Result.ok v) =
          update_or_missing-IsSound _ _ db (λ b. (refl, refl, refl)) (λ b. refl) s
      stored (Result.err e) = s

  pub set_branch_container-IsSound :
      (container : String) → IsSound (committed db (set_branch_container c id container db))
  unfolding set_branch_container
  set_branch_container-IsSound container =
      update_branches-IsSound _ _ db (λ b. (refl, refl, refl)) (λ b. refl) s

  pub touch_branch-IsSound : IsSound (committed db (touch_branch c id db))
  unfolding touch_branch
  touch_branch-IsSound = update_branches-IsSound _ _ db (λ b. (refl, refl, refl)) (λ b. refl) s

  pub note_branch-IsSound : (reason : String) → IsSound (committed db (note_branch c id reason db))
  unfolding note_branch update_branches
  note_branch-IsSound reason = elim (Option-cases (find_branch id db)) [
    | inl e ↦ rw e s
    | inr (b, e) ↦ rw e (
        note-IsSound c id b.state reason _ (last_state-find id db b s e) (
          update_branches-IsSound (has_id id) (λ r. record r { updated_at = c.now }) db
            (λ r. (refl, refl, refl)) (λ r. refl) s))
  ]

  pub set_branch_pending_volume-IsSound :
      (volume : String) → IsSound (committed db (set_branch_pending_volume id volume db))
  unfolding set_branch_pending_volume
  set_branch_pending_volume-IsSound volume =
      update_or_missing-IsSound _ _ db (λ b. (refl, refl, refl)) (λ b. refl) s
