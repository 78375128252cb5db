-- ===== src/Registry/Sound/Moves.antt =====
-- A journaled move of one branch along an edge of its machine keeps the registry sound.
use pgoverlay.Base.{
  Bool, true, ◌≡◌, sym, ap, ◌∙◌, inr, some, List, String, eq_iff, arith, All, All-map, All-of_find,
}
use pgoverlay.Registry.Types.{
  BranchState, of_branch, StateText, branch, Branch, Transition, Db, legal_branch_transition,
}
use pgoverlay.Registry.Sql.{
  Call, is_live, has_id, journal, find_branch, update_branches, update_state,
}
use pgoverlay.Registry.Trail.{
  last_state, IsTrail-journal, last_state-journal_self, last_state-journal_ne,
}
use pgoverlay.Registry.Sound.Keys.{IsSound, KeepsNames, update_state-IsSound}

abbrev pub state_of : StateText → BranchState → BranchState
state_of (of_branch s) d = s
state_of _ d = d

pub of_branch-injective : (a b : BranchState) → of_branch a ≡ of_branch b → a ≡ b
of_branch-injective a b e = ap (λ t. state_of t a) e

-- The trail records the state of the row that is found.
pub last_state-find :
    (id : String) (db : Db) (b : Branch)
    → IsSound db
    → find_branch id db ≡ some b
    → last_state id db.transitions ≡ of_branch b.state
unfolding find_branch
last_state-find id db b s e =
    let (recorded, here) = All-of_find _ (has_id id) db.branches b e s.states in
    rw (← (eq_iff b.id id).0 here) recorded

-- So every row with its id is in that state.
pub All-state_of_find :
    (id : String) (db : Db) (from : BranchState)
    → IsSound db
    → last_state id db.transitions ≡ of_branch from
    → All (λ r. has_id id r ≡ true → r.state ≡ from) db.branches
All-state_of_find id db from s e =
    All-map _ _
      (λ r h here.
        of_branch-injective r.state from
          (sym h ∙ ap (λ i. last_state i db.transitions) ((eq_iff r.id id).0 here) ∙ e))
      db.branches s.states

pub legal_is_live :
    (r : Branch) (from to : BranchState)
    → r.state ≡ from
    → legal_branch_transition from to ≡ true
    → is_live r ≡ true
legal_is_live r from to e legal = ground arith

module _ (c : Call) (id : String) (from to : BranchState) (reason : String) (q : Branch → Bool)
    (f : Branch → Branch) (db : Db) where
  pub move-IsSound :
      KeepsNames f
      → ((b : Branch) → q b ≡ true → has_id id b ≡ true)
      → All (λ b. has_id id b ≡ true → q b ≡ true) db.branches
      → legal_branch_transition from to ≡ true
      → last_state id db.transitions ≡ of_branch from
      → IsSound db
      → IsSound
          (journal c branch id (of_branch from) (of_branch to) reason (update_state q to f db))
  unfolding journal update_state update_branches
  move-IsSound keep inside whole legal prior s =
      update_state-IsSound id to q f db after keep inside whole
        (All-map _ _ (λ r e h. legal_is_live r from to (e (inside r h)) legal) db.branches
          (All-state_of_find id db from s prior))
        (last_state-journal_self c id (of_branch from) (of_branch to) reason moved)
        (λ j h. last_state-journal_ne c id (of_branch from) (of_branch to) reason moved j h)
        (IsTrail-journal c id (of_branch from) (of_branch to) reason moved (ground arith)
          (inr (sym prior)) s.trail)
        s
    where
      moved : Db
      moved = update_state q to f db

      after : List Transition
      after = (journal c branch id (of_branch from) (of_branch to) reason moved).transitions
