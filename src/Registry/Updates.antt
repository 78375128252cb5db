-- ===== src/Registry/Updates.antt =====
-- The remaining branch operations of internal/registry/registry.go: column updates, notes, endpoint
-- repairs, and the two ways in which reconcile fails a branch.
use pgoverlay.Base.{
  ℕ, Bool, true, false, not, ◌&&◌, ◌||◌, Option, none, some, String, ◌==◌, if◌then◌else◌, nat_eq,
  text_lt, count_where, find_where,
}
use pgoverlay.Registry.Types.{
  creating, ready, failed, resetting, of_branch, branch, not_found, illegal_transition, Result, ok,
  err, Branch, legal_branch_transition,
}
use pgoverlay.Registry.Sql.{
  Call, Tx, has_id, in_state, journal, find_branch, update_branches, update_state,
}

-- The time package and the regular expressions that the registry calls.
pub record Platform : Type 1 where
  pub Time : Type 0
  pub parse_time : String → Option Time
  pub time_string : Time → String
  pub image_ref_matches : String → Bool

abbrev cutoff_of : (p : Platform) → String → Option p.Time → String
cutoff_of p before none = before
cutoff_of p before (some t) = p.time_string t

-- msCutoff
unfoldable pub ms_cutoff : Platform → String → String
ms_cutoff p before = cutoff_of p before (p.parse_time before)

-- An UPDATE whose number of affected rows is ignored.
abbrev bump : Call → Branch → Branch
bump c b = record b { updated_at = c.now }

unfoldable pub update_or_missing : (Branch → Bool) → (Branch → Branch) → Tx (Unit {0})
update_or_missing p f db =
    if nat_eq (count_where p db.branches) 0 then err not_found else ok (tt, update_branches p f db)

unfoldable pub store_password : Call → String → Result String → Tx (Unit {0})
store_password c id (ok stored) db =
    update_or_missing (has_id id) (λ b. record b { password = stored; updated_at = c.now }) db
store_password c id (err e) db = err e

-- SetBranchPassword, with the secret box's `encrypt`
unfoldable pub set_branch_password :
    (String → Result String) → Call → String → String → Tx (Unit {0})
unfolding store_password update_or_missing
set_branch_password encrypt c id password = store_password c id (encrypt password)

-- SetBranchContainer
unfoldable pub set_branch_container : Call → String → String → Tx (Unit {0})
set_branch_container c id container db = ok (
  tt,
  update_branches (has_id id) (λ b. record b { container_id = container; updated_at = c.now }) db,
)

-- TouchBranch
unfoldable pub touch_branch : Call → String → Tx (Unit {0})
touch_branch c id db = ok (tt, update_branches (has_id id) (bump c) db)

unfoldable pub note_found : Call → String → String → Option Branch → Tx (Unit {0})
note_found c id reason none db = err not_found
note_found c id reason (some b) db = ok (
  tt,
  journal c branch id (of_branch b.state) (of_branch b.state) reason
      (update_branches (has_id id) (bump c) db),
)

-- NoteBranchCtx
unfoldable pub note_branch : Call → String → String → Tx (Unit {0})
unfolding note_found
note_branch c id reason db = note_found c id reason (find_branch id db) db

-- SetBranchPendingVolume
unfoldable pub set_branch_pending_volume : String → String → Tx (Unit {0})
unfolding update_or_missing
set_branch_pending_volume id volume =
    update_or_missing (has_id id) (λ b. record b { pending_volume = volume })

-- the rows of `WHERE id=? AND state='ready' AND container_id=?`
abbrev pub ready_on : String → String → Branch → Bool
ready_on id container b = b.id == id && in_state ready b && b.container_id == container

-- UpdateBranchEndpoint
unfoldable pub update_branch_endpoint : String → String → String → String → ℕ → Tx Bool
update_branch_endpoint id from container host port db = ok (
  nat_eq (count_where (ready_on id from) db.branches) 1,
  update_branches (ready_on id from)
      (λ b. record b { container_id = container; host = host; port = port }) db,
)

-- UpdateBranchEndpointCtx
unfoldable pub update_branch_endpoint_noted :
    Call → String → String → String → String → ℕ → String → Tx Bool
update_branch_endpoint_noted c id from container host port reason db =
    if nat_eq (count_where (ready_on id from) db.branches) 1
    then ok (
      true,
      journal c branch id (of_branch ready) (of_branch ready) reason (
          update_branches (ready_on id from)
            (λ b. record b {
              container_id = container;
              host = host;
              port = port;
              updated_at = c.now;
            })
            db),
    )
    else ok (false, db)

-- FailReadyBranch: the two legal edges in one transaction
unfoldable pub fail_ready_branch : Call → String → String → String → Tx Bool
fail_ready_branch c id container reason db =
    if not (legal_branch_transition ready resetting)
      || not (legal_branch_transition resetting failed)
    then err (illegal_transition branch (of_branch ready) (of_branch failed))
    else if nat_eq (count_where (ready_on id container) db.branches) 1
    then ok (
      true,
      journal c branch id (of_branch resetting) (of_branch failed) reason (
          journal c branch id (of_branch ready) (of_branch resetting) reason
            (update_state (ready_on id container) failed (bump c) db)),
    )
    else ok (false, db)

-- the rows of ListStuckBranches
abbrev pub is_stuck : String → Branch → Bool
is_stuck before b = (in_state creating b || in_state resetting b) && text_lt b.updated_at before

unfoldable pub fail_stuck_found : Call → String → String → String → Option Branch → Tx Bool
fail_stuck_found c id before reason none db = ok (false, db)
fail_stuck_found c id before reason (some b) db =
    let guard = λ (o : Branch). o.id == id && in_state b.state o && text_lt o.updated_at before in
    if legal_branch_transition b.state failed
    then if nat_eq (count_where guard db.branches) 1
      then ok (
        true,
        journal c branch id (of_branch b.state) (of_branch failed) reason
            (update_state guard failed (bump c) db),
      )
      else ok (false, db)
    else err (illegal_transition branch (of_branch b.state) (of_branch failed))

-- FailStuckBranch
unfoldable pub fail_stuck_branch : Platform → Call → String → String → String → Tx Bool
unfolding fail_stuck_found
fail_stuck_branch p c id before reason db =
    let cutoff = ms_cutoff p before in
    fail_stuck_found c id cutoff reason
      (find_where (λ b. b.id == id && is_stuck cutoff b) db.branches) db
