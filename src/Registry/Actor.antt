-- ===== src/Registry/Actor.antt =====
-- internal/registry/actor.go: who performed a mutation, and the text that the audit trail stores.
use Prim.Native.String.{◌++◌}
use pgoverlay.Base.{Option, none, some, String, ◌==◌, if◌then◌else◌}

pub record Actor : Type 0 where
  pub name : String
  pub role : String

abbrev pub system_actor : String
system_actor = "system:reconcile"

abbrev pub local_actor_prefix : String
local_actor_prefix = "local:"

unfoldable pub local_actor : String → Actor
local_actor os_user = record {
  name = local_actor_prefix ++ (if os_user == "" then "unknown" else os_user);
  role = "";
}

unfoldable pub render_actor : Actor → String
render_actor a =
    if a.name == ""
    then system_actor
    else if a.role == ""
    then a.name
    else a.name ++ " (" ++ a.role ++ ")"

-- The actor on the context; a context without one gives the zero actor.
unfoldable pub actor_from_context : Option Actor → Actor
actor_from_context none = record { name = ""; role = "" }
actor_from_context (some a) = a

unfoldable pub actor_string : Option Actor → String
unfolding render_actor actor_from_context
actor_string ctx = render_actor (actor_from_context ctx)
