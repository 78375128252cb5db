-- ===== src/Registry/Branches.antt =====
-- The branch operations of internal/registry/registry.go: creation, the compare-and-swap transition,
-- and the updates of a row.
use pgoverlay.Base.{
  ℕ, ◌&&◌, Option, none, some, String, ◌==◌, if◌then◌else◌, nat_eq, count_where, find_where,
}
use pgoverlay.Registry.Types.{
  BranchState, creating, ready, StateText, blank, unknown, of_branch, branch, not_found,
  already_exists, illegal_transition, constraint_failed, unique, Result, ok, err, Branch, Db,
  legal_branch_transition,
}
use pgoverlay.Registry.Sql.{
  Call, Tx, is_live, in_state, journal, find_branch, update_state, insert_branch,
}

abbrev pub state_or_unknown : Option Branch → StateText
state_or_unknown none = unknown
state_or_unknown (some b) = of_branch b.state

-- The caller's branch with the columns that the INSERT leaves to their defaults.
abbrev pub new_branch : Call → Branch → Branch
new_branch c b = record b {
  id = c.new_id;
  container_id = "";
  host = "127.0.0.1";
  password = "";
  pending_volume = "";
  port = 0;
  state = creating;
  created_at = c.now;
  updated_at = c.now;
}

unfoldable pub created : Call → Branch → Db → Result (Unit {0} × Db) → Result (Branch × Db)
created c b db (ok (_, db')) =
    ok (b, journal c branch b.id blank (of_branch creating) "created" db')
created c b db (err (constraint_failed unique)) = err (
    already_exists branch b.name
      (state_or_unknown (find_where (λ o. o.name == b.name && is_live o) db.branches)))
created c b db (err e) = err e

-- CreateBranchCtx. The row comes back with its id.
unfoldable pub create_branch : Call → Branch → Tx Branch
unfolding created
create_branch c b db = let row = new_branch c b in created c row db (insert_branch row db)

-- What a lost compare-and-swap reports, from the row as it is read again.
unfoldable pub lost_race : BranchState → Option Branch → Result (Unit {0} × Db)
lost_race to none = err not_found
lost_race to (some b) = err (illegal_transition branch (of_branch b.state) (of_branch to))

-- The guarded UPDATE of transitionBranch from `from`, and its journal row. `set` writes the extra
-- columns.
unfoldable pub swap_state :
    Call → String → BranchState → String → (Branch → Branch) → BranchState → Tx (Unit {0})
unfolding lost_race
swap_state c id to reason set from db =
    let guard = λ (b : Branch). b.id == id && in_state from b in
    if nat_eq (count_where guard db.branches) 0
    then lost_race to (find_branch id db)
    else ok (
      tt,
      journal c branch id (of_branch from) (of_branch to) reason
          (update_state guard to (λ b. record (set b) { updated_at = c.now }) db),
    )

unfoldable pub transition_from :
    Call → String → BranchState → String → (Branch → Branch) → Option Branch → Tx (Unit {0})
transition_from c id to reason set none db = err not_found
transition_from c id to reason set (some b) db =
    if legal_branch_transition b.state to
    then swap_state c id to reason set b.state db
    else err (illegal_transition branch (of_branch b.state) (of_branch to))

-- transitionBranch, with its optional extra SET clause as a function on the row
unfoldable pub transition_branch_set :
    Call → String → BranchState → String → (Branch → Branch) → Tx (Unit {0})
unfolding transition_from
transition_branch_set c id to reason set db =
    transition_from c id to reason set (find_branch id db) db

-- TransitionBranchCtx
unfoldable pub transition_branch : Call → String → BranchState → String → Tx (Unit {0})
unfolding transition_branch_set
transition_branch c id to reason = transition_branch_set c id to reason (λ b. b)

-- MarkBranchReadyCtx
unfoldable pub mark_branch_ready : Call → String → String → String → ℕ → Tx (Unit {0})
unfolding transition_branch_set
mark_branch_ready c id container host port =
    transition_branch_set c id ready "instance running"
      (λ b. record b { container_id = container; host = host; port = port })
