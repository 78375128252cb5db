-- ===== src/Engine/World.antt =====
-- The engine and what it acts on. The container runtime is an interface (runtime.Driver), so its
-- operations are fields of the engine record, as are the engine's settings and what it reads from outside.
use pgoverlay.Base.{ℕ, Bool, Option, List, String}
use pgoverlay.Cow.{Planner, Script}
use pgoverlay.Registry.Types.{Error, Result, Source, Db}
use pgoverlay.Registry.Sql.{Call}
use pgoverlay.Registry.Updates.{Platform}

-- The kinds of error that the engine tells apart (runtime/runtime.go, runtime/errors.go)
pub data DriverError : Type 0 where
  no_such_container volume_exists in_use unavailable : DriverError
  other : String → DriverError

pub data Reply (A : Type 0) : Type 0 where
  reply : A → Reply A
  refused : DriverError → Reply A

-- What a step of the engine fails with. The text of each step that wraps a cause is kept in `step`.
pub data Failure : Type 0 where
  registry_error : Error → Failure
  driver_error : DriverError → Failure
  step : String → Failure → Failure
  with_reason : Failure → String → Failure
  invalid_name : String → String → Failure
  quota_exceeded no_unused_name broken_chain cancelled no_address no_randomness branch_moved :
      Failure
  not_ready in_flight_child has_children base_gone name_taken not_recoverable : String → Failure
  masking_failed : String → Failure → Failure
  destroy_failed : String → Failure → Failure

pub data Outcome (A : Type 0) : Type 0 where
  done : A → Outcome A
  failed : Failure → Outcome A

abbrev pub Labels : Type 0
Labels = List (String × String)

-- The context of a driver call: the request's, or one detached from it (context.WithoutCancel)
pub data Context : Type 0 where
  request detached : Context

pub data MountKind : Type 0 where
  mount_volume mount_host_path : MountKind

pub record Mount : Type 0 where
  pub kind : MountKind
  pub volume : String
  pub target : String
  pub read_only : Bool

-- What a helper runs: the script that installs an entrypoint, or a zfs command, whose shell text
-- (zfsHelperSpec, zfsDestroySpec) the arguments stand for.
pub data Command : Type 0 where
  install_entrypoint : Script → Command
  zfs_helper zfs_destroy : List String → Command

pub record HelperSpec : Type 0 where
  pub cmd : Command
  pub mounts : List Mount
  pub privileged : Bool

pub record BranchSpec : Type 0 where
  pub name : String
  pub image : String
  pub env : List String
  pub mounts : List Mount
  pub entrypoint : List String
  pub labels : Labels

-- A time of creation is `none` where the runtime does not tell it.
pub record ContainerInfo : Type 0 where
  pub id : String
  pub running : Bool
  pub stopped : Bool
  pub status : String
  pub host : String
  pub port : ℕ
  pub created : Option ℕ
  pub labels : Labels

pub record VolumeInfo : Type 0 where
  pub name : String
  pub created : Option ℕ
  pub leftover : Bool

pub record Engine : Type 1 where
  pub Runtime : Type 0
  -- runtime.Driver
  pub create_volume : Context → String → Labels → Runtime → Reply (Unit {0}) × Runtime
  pub clone_volume : Context → String → String → Labels → Runtime → Reply (Unit {0}) × Runtime
  pub remove_volume : Context → String → Runtime → Reply (Unit {0}) × Runtime
  pub run_helper : Context → HelperSpec → Runtime → Reply String × Runtime
  pub start_branch : Context → BranchSpec → Runtime → Reply String × Runtime
  pub exec : Context → String → List String → Runtime → Reply (Unit {0}) × Runtime
  pub inspect : Context → String → Runtime → Reply ContainerInfo × Runtime
  pub stop_remove : Context → String → Runtime → Reply (Unit {0}) × Runtime
  pub list_managed_volumes : Context → String → Runtime → Reply (List VolumeInfo) × Runtime
  pub list_managed : Context → Runtime → Reply (List ContainerInfo) × Runtime
  pub list_helpers : Context → Runtime → Reply (List ContainerInfo) × Runtime
  -- the seeds and restarts that run in this process (reconcileState)
  pub is_claimed : Runtime → String → Bool
  -- whether a context is done
  pub is_done : Context → Runtime → Bool
  -- why a container does not serve, and whether waiting cannot help, where the driver can tell
  pub diagnose_container : Context → String → Runtime → Option (String × Bool)
  -- settings
  pub planner : Planner
  pub default_image : String
  pub instance_id : String
  pub max_branches : ℕ
  pub max_layer_depth : ℕ
  pub default_ttl : ℕ
  pub max_ttl : ℕ
  pub rotate_credentials : Bool
  pub overlay_branch_env : List String
  -- pgctl: the checks of a source's connection settings, and the seeding of a layer
  pub validate_conn : Source → Option Failure
  pub seed_source : Context → Source → String → String → Runtime → Reply (Unit {0}) × Runtime
  -- what is read from outside: the n-th registry call's actor, clock and new id; the n-th random text;
  -- the text of the time that lies a span after the n-th call; how often a wait asks again before its
  -- deadline; the text of a failure, and failureReason, what the audit trail stores of it
  pub platform : Platform
  pub encrypt : String → Result String
  pub clock : ℕ → Call
  pub random_text : ℕ → Option String
  pub time_after : ℕ → ℕ → String
  pub ready_probes : ℕ
  pub address_probes : ℕ
  pub error_text : Failure → String
  pub failure_reason : Failure → String

pub record World (e : Engine) : Type 0 where
  pub db : Db
  pub runtime : e.Runtime
  pub ticks : ℕ
