-- ===== src/Registry/Outcome.antt =====
-- Each way that a transition of a branch can end.
use pgoverlay.Base.{
  Bool, true, false, ◌&&◌, ◌≡◌, refl, ap, ◌∙◌, ◌⊎◌, inl, inr, none, some, List, [], ◌∷◌, String,
  ◌==◌, arith, nat_eq, find_where, count_where, find-update, find_where_holds, Bool-cases,
  Option-cases,
}
use pgoverlay.Registry.Types.{
  BranchState, destroyed, of_branch, branch, not_found, illegal_transition, ok, err, Branch, Db,
  branch_state_eq, legal_branch_transition,
}
use pgoverlay.Registry.Sql.{
  Call, has_id, in_state, find_branch, journal, update_state, update_branches, forget_password,
}
use pgoverlay.Registry.Branches.{transition_branch_set, transition_from, swap_state}

-- A row that is found and meets the guard is counted.
counted :
    (p q : Branch → Bool) (bs : List Branch) (b : Branch)
    → find_where p bs ≡ some b
    → q b ≡ true
    → nat_eq (count_where q bs) 0 ≡ false
unfolding find_where count_where
counted p q [] b e h = absurd (cc)
counted p q (x ∷ bs) b e h = elim (Bool-cases (p x)) [
  | inl hit ↦
      let same : x ≡ b = ground (arith, e, hit) in
      let here : q x ≡ true = ap q same ∙ h in ground (arith, here)
  | inr miss ↦ ground (arith, counted p q bs b (ground (arith, e, miss)) h)
]

state_eq_refl : (s : BranchState) → branch_state_eq s s ≡ true
state_eq_refl s = ground arith

module _ (c : Call) (id : String) (to : BranchState) (reason : String) (set : Branch → Branch)
    (keeps : (b : Branch) → (set b).id ≡ b.id) (db : Db) where
  abbrev moved : Branch → Branch
  moved r = forget_password (record (record (set r) { updated_at = c.now }) { state = to })

  moved_id : (r : Branch) → (moved r).id ≡ r.id
  unfolding forget_password
  moved_id r = elim (Bool-cases (branch_state_eq to destroyed)) [
    | inl e ↦ rw e (keeps r)
    | inr e ↦ rw e (keeps r)
  ]

  moved_state : (r : Branch) → (moved r).state ≡ to
  unfolding forget_password
  moved_state r = elim (Bool-cases (branch_state_eq to destroyed)) [
    | inl e ↦ rw e refl
    | inr e ↦ rw e refl
  ]

  abbrev guard : BranchState → Branch → Bool
  guard from r = r.id == id && in_state from r

  abbrev after_swap : BranchState → Db
  after_swap from =
      journal c branch id (of_branch from) (of_branch to) reason
        (update_state (guard from) to (λ r. record (set r) { updated_at = c.now }) db)

  guard_holds : (b : Branch) → find_branch id db ≡ some b → guard b.state b ≡ true
  unfolding find_branch
  guard_holds b found =
      let mine : (b.id == id) ≡ true = find_where_holds (has_id id) db.branches b found in
      ground (arith, mine, state_eq_refl b.state)

  swap_wins :
      (b : Branch)
      → find_branch id db ≡ some b
      → swap_state c id to reason set b.state db ≡ ok (tt, after_swap b.state)
  unfolding swap_state find_branch
  swap_wins b found =
      let some_row =
        counted (has_id id) (guard b.state) db.branches b found (guard_holds b found) in
      rw some_row refl

  row_after :
      (b : Branch)
      → find_branch id db ≡ some b
      → find_branch id (after_swap b.state) ≡ some (moved b)
  unfolding find_branch journal update_state update_branches
  row_after b found =
      find-update (has_id id) (guard b.state) moved db.branches b
        (λ r. ap (λ i. i == id) (moved_id r)) found
      ∙ rw (guard_holds b found) refl

  -- A transition of a branch, whatever columns but the id it sets besides: it fails as not found where no
  -- row has the id, fails as illegal and names both states where the machine has no such edge, and
  -- succeeds otherwise, with the row in the new state.
  pub transition_branch_set_lem :
      ((find_branch id db ≡ none) × (transition_branch_set c id to reason set db ≡ err not_found))
      ⊎ ((b : Branch) × (find_branch id db ≡ some b)
          × (((legal_branch_transition b.state to ≡ false)
                × (transition_branch_set c id to reason set db
                    ≡ err (illegal_transition branch (of_branch b.state) (of_branch to))))
              ⊎ ((legal_branch_transition b.state to ≡ true)
                  × (db' : Db) × (b' : Branch) × (transition_branch_set c id to reason set db
                      ≡ ok (tt, db'))
                  × (find_branch id db' ≡ some b')
                  × (b'.state ≡ to))))
  unfolding transition_branch_set transition_from
  transition_branch_set_lem = elim (Option-cases (find_branch id db)) [
    | inl lost ↦ inl (lost, ap (λ o. transition_from c id to reason set o db) lost)
    | inr (b, found) ↦ inr (
      b,
      found,
      elim (Bool-cases (legal_branch_transition b.state to)) [
        | inr illegal ↦
            inl (illegal, ap (λ o. transition_from c id to reason set o db) found ∙ rw illegal refl)
        | inl legal ↦ inr (
          legal,
          after_swap b.state,
          moved b,
          ap (λ o. transition_from c id to reason set o db) found ∙ rw legal (swap_wins b found),
          row_after b found,
          moved_state b,
        )
      ],
    )
  ]
