-- ===== src/Engine/Create.antt =====
-- internal/engine/saga.go and engine.go: the admission checks, CreateBranch and ResetBranch.
use pgoverlay.Base.{
  ℕ, Bool, true, not, ◌&&◌, ◌||◌, none, List, [], ◌∷◌, String, ◌==◌, leb, ltb, text_lt, nat_eq,
  if◌then◌else◌, length,
}
use pgoverlay.Registry.Types.{
  creating, failed, resetting, source_ready, branch_state_eq, source_state_eq, Result, ok, err,
  Source, Branch, Layer,
}
use pgoverlay.Registry.Branches.{create_branch, transition_branch}
use pgoverlay.Registry.Queries.{
  get_branch_by_name, count_live_branches, count_live_branches_by_volume, in_flight_children,
  has_base,
}
use pgoverlay.Registry.Lookups.{get_source_by_id, get_source_by_name}
use pgoverlay.Engine.Names.{codes, valid_name}
use pgoverlay.Engine.World.{
  Context, request, Failure, invalid_name, quota_exceeded, in_flight_child, has_children, base_gone,
  not_ready, not_recoverable, Engine,
}
use pgoverlay.Engine.Actions.{
  Action, pure, raise, ◌>>=◌, ◌>>◌, ask, look, call, drive, require, named, best_effort, on_failure,
  at_tick,
}
use pgoverlay.Engine.Layers.{is_zfs, is_csi, fresh_branch_layer, remove_branch_layer}
use pgoverlay.Engine.Provision.{provision}

-- expiresAtFor: the span that the policy makes of a requested one; 0 is for ever.
unfoldable pub effective_ttl : ℕ → ℕ → ℕ → ℕ
effective_ttl default most ttl =
    let asked = if nat_eq ttl 0 then default else ttl in
    if not (nat_eq most 0) && ltb most asked then most else asked

-- Whether a count is at the cap; a cap of 0 is none.
unfoldable pub at_cap : ℕ → ℕ → Bool
at_cap cap n = not (nat_eq cap 0) && leb cap n

-- The depth limit in force; 0 stands for DefaultMaxLayerDepth.
unfoldable pub depth_limit : ℕ → ℕ
depth_limit n = if nat_eq n 0 then 100 else n

module _ (e : Engine) where
  unfoldable pub expires_at_for : ℕ → Action e String
  expires_at_for ttl =
      let span = effective_ttl e.default_ttl e.max_ttl ttl in
      at_tick λ n. if nat_eq span 0 then "" else e.time_after n span

  -- validateName
  unfoldable pub validate_name : String → String → Action e (Unit {0})
  validate_name kind name = require (valid_name (codes name)) (invalid_name kind name)

  -- checkQuota
  unfoldable pub check_quota : Action e (Unit {0})
  check_quota =
      look count_live_branches >>= λ n. require (not (at_cap e.max_branches n)) quota_exceeded

  -- checkLayerDepth
  unfoldable pub check_layer_depth : List Layer → Action e (Unit {0})
  check_layer_depth layers =
      require (ltb (length layers) (depth_limit e.max_layer_depth)) quota_exceeded

  abbrev pub require_source_ready : Source → Action e (Unit {0})
  require_source_ready s = require (source_state_eq s.state source_ready) (not_ready s.name)

  -- The row that a create asks the registry for
  abbrev pub requested : String → String → String → String → String → String → Branch
  requested name source_id rw source_volume expires_at parent = record {
    id = "";
    name = name;
    source_id = source_id;
    container_id = "";
    rw_volume = rw;
    source_volume = source_volume;
    expires_at = expires_at;
    host = "";
    base_layer_id = none;
    parent_branch_name = parent;
    password = "";
    pending_volume = "";
    port = 0;
    state = creating;
    created_at = "";
    updated_at = "";
  }

  abbrev pub marked_failed : String → Failure → Action e (Unit {0})
  marked_failed id f = best_effort (call (λ c. transition_branch c id failed (e.failure_reason f)))

  -- CreateBranch up to its last line
  unfoldable pub make_branch : String → String → ℕ → Action e (Unit {0})
  make_branch name source_name ttl = do
    validate_name "branch" name
    check_quota
    s ← ask (get_source_by_name source_name)
    require_source_ready s
    rw ← fresh_branch_layer e name 1
    expires_at ← expires_at_for ttl
    b ← call (λ c. create_branch c (requested name s.id rw s.volume expires_at ""))
    on_failure (marked_failed b.id) (provision e b s)

  -- CreateBranch
  unfoldable pub create_branch_saga : String → String → ℕ → Action e Branch
  create_branch_saga name source_name ttl = do
    make_branch name source_name ttl
    ask (get_branch_by_name name)

  abbrev pub base_missing : Branch → Result Branch → Bool
  base_missing b (err _) = true
  base_missing b (ok p) = not (p.rw_volume == b.source_volume) || text_lt b.created_at p.created_at

  -- checkCSIChildBase
  unfoldable pub check_csi_child_base : Branch → Action e (Unit {0})
  check_csi_child_base b =
      look (λ db. base_missing b (get_branch_by_name b.parent_branch_name db)) >>= λ gone.
      require (not (is_csi e) || (b.parent_branch_name == "" || not gone)) (base_gone b.name)

  -- checkChildCommitted
  unfoldable pub check_child_committed : Branch → Action e (Unit {0})
  check_child_committed b =
      require (is_zfs e || (is_csi e || (b.parent_branch_name == "" || has_base b)))
        (not_recoverable b.name)

  unfoldable pub check_no_clones : Branch → Action e (Unit {0})
  check_no_clones b = look (count_live_branches_by_volume b.rw_volume) >>= λ n.
      require (not (is_zfs e) || nat_eq n 0) (has_children b.name)

  abbrev pub none_left : Branch → List String → Action e (Unit {0})
  none_left b [] = pure tt
  none_left b (kid ∷ _) = raise (in_flight_child kid)

  -- checkChildrenAllowReprovision
  unfoldable pub check_children_allow_reprovision : Branch → Action e (Unit {0})
  check_children_allow_reprovision b =
      check_no_clones b >> look (in_flight_children b.name) >>= none_left b

  abbrev pub remove_container : Context → Branch → Action e (Unit {0})
  remove_container ctx b =
      if b.container_id == "" then pure tt else drive (e.stop_remove ctx b.container_id)

  abbrev pub reset_reason : Branch → String
  reset_reason b =
      if branch_state_eq b.state failed then "reset requested (from failed)" else "reset requested"

  unfoldable pub rebuild : Branch → Source → Action e (Unit {0})
  rebuild b s = do
    named "remove container" (remove_container request b)
    named "remove branch layer" (remove_branch_layer e request b)
    named "reset" (provision e b s)

  -- ResetBranch
  unfoldable pub reset_branch : String → Action e Branch
  reset_branch name = do
    b ← ask (get_branch_by_name name)
    named "reset" (check_csi_child_base b)
    check_child_committed b
    s ← ask (get_source_by_id b.source_id)
    check_children_allow_reprovision b
    call (λ c. transition_branch c b.id resetting (reset_reason b))
    on_failure (marked_failed b.id) (rebuild b s)
    ask (get_branch_by_name name)
