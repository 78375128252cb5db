-- ===== src/Engine/Drift.antt =====
-- internal/engine/reconcile.go: PlanReconcile, the differences between the registry and the runtime.
use Prim.Native.String.{◌++◌ as ◌+++◌}
use pgoverlay.Base.{
  ℕ, zero, suc, ◌+◌, Bool, true, false, not, ◌&&◌, ◌||◌, Option, none, some, List, [], ◌∷◌, ◌++◌,
  String, ◌==◌, nat_eq, ltb, leb, if◌then◌else◌, length, decimal, map, reverse, select_where,
  exists_where, find_where,
}
use pgoverlay.Registry.Types.{
  BranchState, creating, ready, resetting, branch_state_eq, Branch, Layer, Db,
}
use pgoverlay.Registry.Layers.{count_branches_referencing_layer}
use pgoverlay.Registry.Queries.{
  list_expired_branches, list_stuck_branches, list_stuck_sources, list_stuck_destroying_branches,
  list_live_branches, live_volume_set,
}
use pgoverlay.Registry.Volumes.{member}
use pgoverlay.Engine.World.{Labels, request, ContainerInfo, VolumeInfo, Engine}
use pgoverlay.Engine.Names.{codes}
use pgoverlay.Engine.Actions.{Action, ◌>>=◌, look, drive, peek}
use pgoverlay.Engine.Destroy.{state_name}

pub data ActionKind : Type 0 where
  reap fail_stuck fail_stuck_source retry_destroy restart_branch update_endpoint
        remove_orphan_container remove_orphan_helper gc_layer gc_volume :
      ActionKind

-- One drift and its remedy (Action)
pub record Remedy : Type 0 where
  pub kind : ActionKind
  pub target : String
  pub reason : String

-- The clock of a pass: the time as a number and as a text, the stuck timeout likewise, and the text of
-- the moment that lies the timeout before.
pub record Pass : Type 0 where
  pub now : ℕ
  pub now_text : String
  pub stuck_timeout : ℕ
  pub timeout_text : String
  pub before : String

abbrev remedy : ActionKind → String → String → Remedy
remedy k t r = record { kind = k; target = t; reason = r }

-- A key of a label map; a missing one reads as "".
unfoldable pub label : String → Labels → String
label key [] = ""
label key ((k, v) ∷ rest) = let other = label key rest in if k == key then v else other

unfoldable pub take_text : ℕ → String → String
take_text zero s = ""
take_text (suc n) String.[] = ""
take_text (suc n) (String.◌∷◌ c s) = String.◌∷◌ c (take_text n s)

-- shortID
unfoldable pub short_id : String → String
short_id id =
    if id == "" then "(none)" else if nat_eq (length (codes id)) 64 then take_text 12 id else id

abbrev has_colon : String → Bool
has_colon s = exists_where (λ c. nat_eq c 58) (codes s)

-- net.JoinHostPort
unfoldable pub join_host_port : String → ℕ → String
join_host_port host port =
    (if has_colon host then "[" +++ (host +++ "]") else host) +++ (":" +++ decimal port)

abbrev pub address_moved : Branch → ContainerInfo → Bool
address_moved b c =
    c.running
    && not (c.host == "")
    && not (nat_eq c.port 0)
    && (not (c.host == b.host) || not (nat_eq c.port b.port))

abbrev pub drift_of : Branch → Option ContainerInfo → List Remedy
drift_of b none =
    remedy restart_branch b.name
      ("container " +++ (short_id b.container_id +++ " of the ready branch is gone"))
    ∷ []
drift_of b (some c) =
    if c.stopped
    then remedy restart_branch b.name (
        "container "
        +++ (short_id c.id +++ (" of the ready branch is not running (" +++ (c.status +++ ")"))))
      ∷ []
    else if address_moved b c
    then remedy update_endpoint b.name (
        "address moved from "
        +++ (join_host_port b.host b.port +++ (" to " +++ join_host_port c.host c.port)))
      ∷ []
    else []

abbrev pub has_container_id : String → ContainerInfo → Bool
has_container_id id c = c.id == id

-- readyDrift; of two containers with one id the later is the one that the map holds.
unfoldable pub ready_drift : Branch → List ContainerInfo → List Remedy
ready_drift b managed = drift_of b (
    if b.container_id == ""
    then none
    else find_where (has_container_id b.container_id) (reverse managed))

abbrev may_record : BranchState → Bool
may_record creating = true
may_record resetting = true
may_record ready = true
may_record _ = false

-- ownedInFlight
unfoldable pub owned_in_flight : ContainerInfo → List Branch → Bool
owned_in_flight c live =
    exists_where (λ b. b.id == label "pgoverlay.branch.id" c.labels && may_record b.state) live

-- Whether a live branch's row names a container
unfoldable pub is_known : String → List Branch → Bool
is_known id live = exists_where (λ b. b.container_id == id && not (b.container_id == "")) live

abbrev old_enough : ℕ → ℕ → Option ℕ → Bool
old_enough now grace none = false
old_enough now grace (some t) = leb (t + grace) now

-- orphanHelper
unfoldable pub orphan_helper : Pass → ContainerInfo → Bool
orphan_helper p h = h.stopped && old_enough p.now p.stuck_timeout h.created

abbrev too_young : ℕ → ℕ → Option ℕ → Bool
too_young now grace none = false
too_young now grace (some t) = ltb now (t + grace)

unfoldable pub each : {A : Type 0} → (A → List Remedy) → List A → List Remedy
each f [] = []
each f (x ∷ rest) = f x ++ each f rest

module _ (p : Pass) (db : Db) where
  unfoldable pub reaps : List Remedy
  reaps =
      map (λ b. remedy reap b.name ("ttl expired at " +++ b.expires_at))
        (list_expired_branches p.now_text db)

  abbrev is_reaping : String → Bool
  is_reaping name = exists_where (λ b. b.name == name) (list_expired_branches p.now_text db)

module _ (e : Engine) (p : Pass) (db : Db) (claimed : String → Bool) where
  unfoldable pub stuck_rows : List Remedy
  stuck_rows =
      map
        (λ b.
          remedy fail_stuck b.name
            ("stuck in " +++ (state_name b.state +++ (" longer than " +++ p.timeout_text))))
        (list_stuck_branches e.platform p.before db)
      ++ (map
            (λ s.
              remedy fail_stuck_source s.name
                ("seeding with no progress for longer than " +++ p.timeout_text))
            (select_where (λ s. not (claimed ("source:" +++ s.id)))
              (list_stuck_sources e.platform p.before db))
          ++ map
              (λ b.
                remedy retry_destroy b.name ("stuck in destroying longer than " +++ p.timeout_text))
              (list_stuck_destroying_branches e.platform p.before db))

  -- A ready branch that is neither being reaped nor being restarted in this process
  unfoldable pub drifts : List ContainerInfo → List Remedy
  drifts managed =
      each (λ b. ready_drift b managed)
        (select_where
          (λ b.
            branch_state_eq b.state ready
            && (not (is_reaping p db b.name) && not (claimed ("branch:" +++ b.name))))
          (list_live_branches db))

  abbrev pub is_orphan : ContainerInfo → Bool
  is_orphan c =
      label "pgoverlay.instance" c.labels == e.instance_id
      && (not (is_known c.id (list_live_branches db))
          && not (owned_in_flight c (list_live_branches db)))

  unfoldable pub orphans : List ContainerInfo → List Remedy
  orphans managed =
      map (λ c. remedy remove_orphan_container c.id "managed container with no live branch row")
        (select_where is_orphan managed)

  unfoldable pub finished_helpers : List ContainerInfo → List Remedy
  finished_helpers helpers =
      map
        (λ h.
          remedy remove_orphan_helper h.id
            ("helper finished (" +++ (h.status +++ ") and was never removed")))
        (select_where (orphan_helper p) helpers)

  abbrev pub is_unreferenced : Layer → Bool
  is_unreferenced l = nat_eq (count_branches_referencing_layer l.id db) 0

  unfoldable pub dead_layers : List Remedy
  dead_layers =
      map (λ l. remedy gc_layer l.volume "frozen layer referenced by 0 live branches")
        (select_where is_unreferenced (reverse db.layers))

  abbrev is_planned : String → Bool
  is_planned v = exists_where (λ l. l.volume == v) (select_where is_unreferenced db.layers)

  abbrev pub is_dead_volume : VolumeInfo → Bool
  is_dead_volume v =
      not (member v.name (live_volume_set db))
      && (not (is_planned v.name) && not (too_young p.now p.stuck_timeout v.created))

  unfoldable pub dead_volumes : List VolumeInfo → List Remedy
  dead_volumes vols =
      map (λ v. remedy gc_volume v.name "managed volume owned by no live branch or source")
        (select_where is_dead_volume vols)

  unfoldable pub plan_of : List ContainerInfo → List ContainerInfo → List VolumeInfo → List Remedy
  plan_of managed helpers vols =
      reaps p db
      ++ (stuck_rows
          ++ (drifts managed
              ++ (orphans managed
                  ++ (finished_helpers helpers ++ (dead_layers ++ dead_volumes vols)))))

module _ (e : Engine) where
  -- PlanReconcile
  unfoldable pub plan_reconcile : Pass → Action e (List Remedy)
  plan_reconcile p = do
    managed ← drive (e.list_managed request)
    helpers ← drive (e.list_helpers request)
    vols ← drive (e.list_managed_volumes request e.instance_id)
    claimed ← peek e.is_claimed
    look (λ db. plan_of e p db claimed managed helpers vols)
