-- ===== src/Registry/Sound/Repairs.antt =====
-- Reconcile's compare-and-swaps on a branch keep the registry sound.
use pgoverlay.Base.{
  ℕ, Bool, true, ◌&&◌, ◌≡◌, refl, sym, ap, ◌∙◌, inl, inr, Option, none, some, String, ◌==◌, eq_iff,
  arith, nat_eq, nat_eq_iff, text_lt, All-every, All-of_find, All-of_one, find_of_count,
  count_where, Bool-cases,
}
use pgoverlay.Registry.Types.{
  BranchState, ready, failed, resetting, of_branch, branch, Branch, Db, legal_branch_transition,
  branch_state_eq_sound,
}
use pgoverlay.Registry.Sql.{
  Call, committed, is_live, has_id, in_state, journal, update_branches, update_state,
}
use pgoverlay.Registry.Updates.{
  Platform, ms_cutoff, ready_on, update_branch_endpoint, update_branch_endpoint_noted,
  fail_ready_branch, fail_stuck_found, fail_stuck_branch,
}
use pgoverlay.Registry.Trail.{
  last_state, IsTrail-journal, last_state-journal_self, last_state-journal_ne,
}
use pgoverlay.Registry.Sound.Keys.{IsSound, update_branches-IsSound, update_state-IsSound}
use pgoverlay.Registry.Sound.Moves.{legal_is_live, move-IsSound}
use pgoverlay.Registry.Sound.Branches.{note-IsSound}

-- The state that the trail records for the id of the one row in `q`.
last_state_of_one :
    (id : String) (st : BranchState) (q : Branch → Bool) (db : Db)
    → ((b : Branch) → q b ≡ true → (b.id == id ≡ true) × (b.state ≡ st))
    → count_where q db.branches ≡ 1
    → IsSound db
    → last_state id db.transitions ≡ of_branch st
last_state_of_one id st q db sub one s =
    let (b, e) = find_of_count q db.branches one in
    let (recorded, hit) = All-of_find _ q db.branches b e s.states in
    let (here, now_in) = sub b hit in
    ap (λ i. last_state i db.transitions) (sym ((eq_iff b.id id).0 here))
    ∙ recorded
    ∙ ap of_branch now_in

module _ (c : Call) (id container : String) (db : Db) (s : IsSound db) where
  pub update_branch_endpoint-IsSound :
      (to host : String) (port : ℕ)
      → IsSound (committed db (update_branch_endpoint id container to host port db))
  unfolding update_branch_endpoint
  update_branch_endpoint-IsSound to host port =
      update_branches-IsSound _ _ db (λ b. (refl, refl, refl)) (λ b. refl) s

  ready_on_parts :
      (b : Branch) → ready_on id container b ≡ true → ((b.id == id) ≡ true) × (b.state ≡ ready)
  ready_on_parts b h = ground (arith, branch_state_eq_sound b.state ready)

  pub update_branch_endpoint_noted-IsSound :
      (to host : String) (port : ℕ) (reason : String)
      → IsSound (committed db (update_branch_endpoint_noted c id container to host port reason db))
  unfolding update_branch_endpoint_noted update_branches
  update_branch_endpoint_noted-IsSound to host port reason =
      elim (Bool-cases (nat_eq (count_where (ready_on id container) db.branches) 1)) [
        | inl e ↦ rw e (
            note-IsSound c id ready reason _
              (last_state_of_one id ready (ready_on id container) db ready_on_parts
                ((nat_eq_iff _ 1).0 e) s)
              (update_branches-IsSound (ready_on id container)
                (λ b. record b { container_id = to; host = host; port = port; updated_at = c.now })
                db (λ b. (refl, refl, refl)) (λ b. refl) s))
        | inr e ↦ rw e s
      ]

  pub fail_ready_branch-IsSound :
      (reason : String) → IsSound (committed db (fail_ready_branch c id container reason db))
  unfolding fail_ready_branch journal update_state update_branches
  fail_ready_branch-IsSound reason =
      elim (Bool-cases (nat_eq (count_where (ready_on id container) db.branches) 1)) [
        | inl e ↦ rw e (fails ((nat_eq_iff _ 1).0 e))
        | inr e ↦ rw e s
      ]
    where
      q : Branch → Bool
      q = ready_on id container

      f : Branch → Branch
      f b = record b { updated_at = c.now }

      moved : Db
      moved = update_state q failed f db

      first : Db
      first = journal c branch id (of_branch ready) (of_branch resetting) reason moved

      second : Db
      second = journal c branch id (of_branch resetting) (of_branch failed) reason first

      fails : count_where q db.branches ≡ 1 → IsSound second
      fails one =
          let prior = last_state_of_one id ready q db ready_on_parts one s in
          update_state-IsSound id failed q f db second.transitions (λ b. (refl, refl, refl))
            (λ b h. (ready_on_parts b h).0)
            (All-of_one (has_id id) q db.branches (λ b h. (ready_on_parts b h).0) (s.ids id) one)
            (All-every (λ b. q b ≡ true → is_live b ≡ true)
              (λ b h. legal_is_live b ready resetting (ready_on_parts b h).1 refl) db.branches)
            (last_state-journal_self c id (of_branch resetting) (of_branch failed) reason first)
            (λ j h.
              last_state-journal_ne c id (of_branch resetting) (of_branch failed) reason first j h
              ∙ last_state-journal_ne c id (of_branch ready) (of_branch resetting) reason moved j h)
            (IsTrail-journal c id (of_branch resetting) (of_branch failed) reason first refl
              (inr (
                sym (
                  last_state-journal_self c id (of_branch ready) (of_branch resetting) reason
                    moved)))
              (IsTrail-journal c id (of_branch ready) (of_branch resetting) reason moved refl
                (inr (sym prior)) s.trail))
            s

module _ (c : Call) (id before reason : String) (db : Db) (s : IsSound db) where
  fail_stuck_found-IsSound :
      (o : Option Branch) → IsSound (committed db (fail_stuck_found c id before reason o db))
  unfolding fail_stuck_found
  fail_stuck_found-IsSound none = s
  fail_stuck_found-IsSound (some b) = elim (Bool-cases (legal_branch_transition b.state failed)) [
    | inr illegal ↦ rw illegal s
    | inl legal ↦ elim (Bool-cases (nat_eq (count_where guard db.branches) 1)) [
      | inr e ↦ rw (legal, e) s
      | inl e ↦
          rw (legal, e)
            (move-IsSound c id b.state failed reason guard _ db (λ r. (refl, refl, refl))
              (λ r h. (parts r h).0)
              (All-of_one (has_id id) guard db.branches (λ r h. (parts r h).0) (s.ids id)
                ((nat_eq_iff _ 1).0 e))
              legal (last_state_of_one id b.state guard db parts ((nat_eq_iff _ 1).0 e) s) s)
    ]
  ]
    where
      guard : Branch → Bool
      guard r = r.id == id && in_state b.state r && text_lt r.updated_at before

      parts : (r : Branch) → guard r ≡ true → ((r.id == id) ≡ true) × (r.state ≡ b.state)
      parts r h = ground (arith, branch_state_eq_sound r.state b.state)

module _ (p : Platform) where
  pub fail_stuck_branch-IsSound :
      (c : Call) (id before reason : String) (db : Db)
      → IsSound db
      → IsSound (committed db (fail_stuck_branch p c id before reason db))
  unfolding fail_stuck_branch
  fail_stuck_branch-IsSound c id before reason db s =
      fail_stuck_found-IsSound c id (ms_cutoff p before) reason db s _
