-- ===== src/Engine/Readiness.antt =====
-- internal/engine/saga.go: from a started container to a ready branch.
use Prim.Native.Char.{code}
use Prim.Native.String.{◌++◌ as ◌+++◌}
use pgoverlay.Base.{
  ℕ, zero, suc, Bool, Option, none, some, List, [], ◌∷◌, String, ◌==◌, nat_eq, if◌then◌else◌,
}
use pgoverlay.Registry.Types.{Source, Branch, MaskScript}
use pgoverlay.Registry.Branches.{mark_branch_ready}
use pgoverlay.Registry.Updates.{set_branch_container, set_branch_password}
use pgoverlay.Registry.Lookups.{get_mask_scripts}
use pgoverlay.Engine.World.{
  Context, ContainerInfo, Failure, with_reason, cancelled, no_address, no_randomness,
  masking_failed, Engine,
}
use pgoverlay.Engine.Actions.{
  Action, pure, raise, ◌>>=◌, ◌>>◌, look, call, drive, peek, failing_as, named, rescue, at_tick,
  for_each,
}

abbrev pub or_postgres : String → String
or_postgres s = if s == "" then "postgres" else s

-- psqlCmd
unfoldable pub psql_cmd : Source → String → List String
psql_cmd s sql =
    "psql"
    ∷ "-v"
    ∷ "ON_ERROR_STOP=1"
    ∷ "-U"
    ∷ or_postgres s.conn_user
    ∷ "-d"
    ∷ or_postgres s.conn_db
    ∷ "-c"
    ∷ sql
    ∷ []

-- strings.ReplaceAll(user, `"`, `""`)
unfoldable pub double_quotes : String → String
double_quotes String.[] = ""
double_quotes (String.◌∷◌ c s) =
    let rest = double_quotes s in
    if nat_eq (code c) 34 then String.◌∷◌ c (String.◌∷◌ c rest) else String.◌∷◌ c rest

unfoldable pub alter_role : Source → String → String
alter_role s password =
    "ALTER ROLE \""
    +++ (double_quotes (or_postgres s.conn_user) +++ ("\" WITH PASSWORD '" +++ (password +++ "'")))

abbrev pub pg_isready : List String
pg_isready = "pg_isready" ∷ "-U" ∷ "postgres" ∷ "-h" ∷ "/var/run/postgresql" ∷ []

module _ (e : Engine) where
  abbrev pub goes_on_unless_done : Context → Action e (Unit {0})
  goes_on_unless_done ctx =
      peek (e.is_done ctx) >>= λ over. if over then raise cancelled else pure tt

  abbrev pub stop_if_fatal : Failure → Option (String × Bool) → Action e (Unit {0})
  stop_if_fatal f none = pure tt
  stop_if_fatal f (some (reason, fatal)) = if fatal then raise (with_reason f reason) else pure tt

  abbrev pub explained : Failure → Option (String × Bool) → Failure
  explained f none = f
  explained f (some (reason, fatal)) = if reason == "" then f else with_reason f reason

  -- The end of waitReady, past the deadline
  abbrev pub timed_out : Context → String → Option Failure → Action e (Unit {0})
  timed_out ctx cid none = pure tt
  timed_out ctx cid (some f) = peek (e.diagnose_container ctx cid) >>= λ d. raise (explained f d)

  -- The loop of waitReady, with the probes that are left before the deadline and the last error
  unfoldable pub wait_loop : Context → String → ℕ → Option Failure → Action e (Unit {0})
  wait_loop ctx cid zero last = timed_out ctx cid last
  wait_loop ctx cid (suc left) last = rescue (drive (e.exec ctx cid pg_isready)) λ f.
      peek (e.diagnose_container ctx cid)
      >>= (λ d. stop_if_fatal f d)
      >> goes_on_unless_done ctx
      >> wait_loop ctx cid left (some f)

  -- waitReady: the deadline lies ahead at the first probe.
  unfoldable pub wait_ready : Context → String → Action e (Unit {0})
  wait_ready ctx cid = wait_loop ctx cid (suc e.ready_probes) none

  -- inspectAddr, with the inspections that are left before the deadline after the next one
  unfoldable pub inspect_loop : Context → String → ℕ → Action e ContainerInfo
  inspect_loop ctx cid zero =
      drive (e.inspect ctx cid) >>= λ info. if info.host == "" then raise no_address else pure info
  inspect_loop ctx cid (suc left) = drive (e.inspect ctx cid) >>= λ info.
      if info.host == "" then goes_on_unless_done ctx >> inspect_loop ctx cid left else pure info

  unfoldable pub inspect_addr : Context → String → Action e ContainerInfo
  inspect_addr ctx cid = inspect_loop ctx cid e.address_probes

  unfoldable pub run_script : Context → String → Source → MaskScript → Action e (Unit {0})
  run_script ctx cid s m =
      failing_as (masking_failed m.name) (drive (e.exec ctx cid (psql_cmd s m.sql)))

  -- applyMasking
  unfoldable pub apply_masking : Context → String → Source → Action e (Unit {0})
  apply_masking ctx cid s =
      look (get_mask_scripts s.id) >>= λ scripts. for_each (run_script ctx cid s) scripts

  abbrev pub drawn : Option String → Action e String
  drawn none = raise no_randomness
  drawn (some p) = pure p

  -- rand.Read, hex.EncodeToString
  unfoldable pub draw_password : Action e String
  draw_password = at_tick e.random_text >>= drawn

  -- rotateBranchCredentials. The row holds the stored form, which is "" when no password is kept.
  unfoldable pub rotate_branch_credentials :
      Context → String → Branch → Source → Action e (Unit {0})
  rotate_branch_credentials ctx cid b s =
      if e.rotate_credentials
      then (do
        p ← draw_password
        named "rotate credentials" (drive (e.exec ctx cid (psql_cmd s (alter_role s p))))
        named "persist rotated password" (call (λ c. set_branch_password e.encrypt c b.id p)))
      else if b.password == ""
      then pure tt
      else named "clear stale password" (call (λ c. set_branch_password e.encrypt c b.id ""))

  -- awaitAndMark
  unfoldable pub await_and_mark : Context → Branch → Source → String → Action e (Unit {0})
  await_and_mark ctx b s cid = do
    call (λ c. set_branch_container c b.id cid)
    named "instance never became ready" (wait_ready ctx cid)
    apply_masking ctx cid s
    rotate_branch_credentials ctx cid b s
    info ← inspect_addr ctx cid
    call (λ c. mark_branch_ready c b.id cid info.host info.port)
