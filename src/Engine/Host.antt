-- ===== src/Engine/Host.antt =====
-- A container host and a registry with one source and one branch, for the tests.
use Prim.Native.String.{◌++◌ as ◌+++◌}
use pgoverlay.Base.{
  ℕ, suc, true, false, none, some, List, [], ◌∷◌, String, ◌==◌, decimal, if◌then◌else◌,
}
use pgoverlay.Cow.{overlay}
use pgoverlay.Registry.Types.{ok, creating, seeding, source_ready, Source, Branch, Db, empty_db}
use pgoverlay.Registry.Sql.{Call}
use pgoverlay.Registry.Updates.{Platform}
use pgoverlay.Registry.Run.{Op, run, branch_create, branch_ready, source_create, source_state}
use pgoverlay.Engine.World.{Reply, reply, refused, in_use, Engine, World}
use pgoverlay.Registry.Queries.{volume_name_used}
use pgoverlay.Engine.Tidy.{Stock, stock_volume, unstock_volume, stock_container, unstock_container}

abbrev pub Host : Type 0
Host = record { stock : Stock; started : ℕ }

abbrev pub set_stock : Stock → Host → Host
set_stock s h = record h { stock = s }

abbrev pub platform : Platform
platform = record {
  Time = String;
  parse_time = λ s. some s;
  time_string = λ t. t;
  image_ref_matches = λ s. true;
}

abbrev pub call_with : String → Call
call_with id = record { ctx = none; now = "2026-01-01"; new_id = id }

-- A container's name is taken by one container at a time.
abbrev pub start_named : String → Host → Reply String × Host
start_named cid h =
    if h.stock.containers cid
    then (refused in_use, h)
    else (reply cid, record { stock = stock_container cid h.stock; started = suc h.started })

-- A host on which every operation succeeds
abbrev pub host : Engine
host = record {
  Runtime = Host;
  create_volume = λ ctx v labels h. (reply tt, set_stock (stock_volume v h.stock) h);
  clone_volume = λ ctx from v labels h. (reply tt, set_stock (stock_volume v h.stock) h);
  remove_volume = λ ctx v h. (reply tt, set_stock (unstock_volume v h.stock) h);
  run_helper = λ ctx spec h. (reply "", h);
  start_branch = λ ctx spec h. start_named (spec.name +++ decimal h.started) h;
  exec = λ ctx cid cmd h. (reply tt, h);
  inspect = λ ctx cid h. (
    reply (record {
      id = cid;
      running = true;
      stopped = false;
      status = "running";
      host = "127.0.0.1";
      port = 5432;
      created = none;
      labels = [];
    }),
    h,
  );
  stop_remove = λ ctx cid h. (reply tt, set_stock (unstock_container cid h.stock) h);
  list_managed_volumes = λ ctx id h. (reply [], h);
  list_managed = λ ctx h. (reply [], h);
  list_helpers = λ ctx h. (reply [], h);
  is_claimed = λ h key. false;
  is_done = λ ctx h. false;
  diagnose_container = λ ctx cid h. none;
  planner = record { backend = overlay; dataset = "" };
  default_image = "postgres:16";
  instance_id = "i1";
  max_branches = 0;
  max_layer_depth = 0;
  default_ttl = 0;
  max_ttl = 0;
  rotate_credentials = true;
  overlay_branch_env = [];
  validate_conn = λ s. none;
  seed_source = λ ctx s v password h. (reply tt, h);
  platform = platform;
  encrypt = λ v. ok v;
  clock = λ n. call_with ("id" +++ decimal n);
  random_text = λ n. some "5e6e";
  time_after = λ n span. "later";
  ready_probes = 3;
  address_probes = 3;
  error_text = λ f. "error";
  failure_reason = λ f. "failure";
}

abbrev pub main_source : Source
main_source = record {
  id = "";
  name = "main";
  pg_version = "16";
  volume = "vol-s1";
  conn_host = "db";
  conn_port = 5432;
  conn_user = "app";
  conn_db = "app";
  network = "";
  seed_via = "";
  dump_schemas = "";
  image = "";
  generation = 1;
  state = seeding;
  pending_volume = "";
  created_at = "";
  updated_at = "";
}

abbrev pub dev_branch : Branch
dev_branch = record {
  id = "";
  name = "dev";
  source_id = "s1";
  container_id = "";
  rw_volume = "pgoverlay-br-dev-rw";
  source_volume = "vol-s1";
  expires_at = "";
  host = "";
  base_layer_id = none;
  parent_branch_name = "";
  password = "";
  pending_volume = "";
  port = 0;
  state = creating;
  created_at = "";
  updated_at = "";
}

abbrev pub beginnings : List (Call × Op)
beginnings =
    (call_with "s1", source_create main_source)
    ∷ (call_with "", source_state "s1" source_ready "seeded")
    ∷ (call_with "b1", branch_create dev_branch)
    ∷ (call_with "", branch_ready "b1" "c1" "127.0.0.1" 5432)
    ∷ []

abbrev pub start_db : Db
start_db = run platform (λ v. ok v) empty_db beginnings

-- The host has the volumes that the registry names.
abbrev pub start_host : Host
start_host = record {
  stock = record { volumes = λ v. volume_name_used v start_db; containers = λ cid. cid == "c1" };
  started = 0;
}

abbrev pub start : World host
start = record { db = start_db; runtime = start_host; ticks = 0 }
