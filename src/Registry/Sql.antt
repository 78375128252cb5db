-- ===== src/Registry/Sql.antt =====
-- One transaction of the registry: it reads and writes the tables and commits, or fails and is rolled
-- back. The statements that several operations share.
use pgoverlay.Base.{
  Bool, true, not, ◌&&◌, Option, none, some, List, ◌∷◌, String, ◌==◌, if◌then◌else◌, update_where,
  find_where, exists_where,
}
use pgoverlay.Registry.Types.{
  BranchState, destroyed, branch_state_eq, StateText, Entity, constraint_failed, primary_key,
  unique, foreign_key, Result, ok, err, Branch, Layer, Db,
}
use pgoverlay.Registry.Actor.{Actor, actor_string}

-- What a call reads from outside: the actor on its context, the database's clock and the id that
-- `newID` draws.
pub record Call : Type 0 where
  pub ctx : Option Actor
  pub now : String
  pub new_id : String

abbrev pub Tx : Type 0 → Type 0
Tx A = Db → Result (A × Db)

-- The state after a transaction: an error rolls it back.
abbrev pub committed : {A : Type 0} → Db → Result (A × Db) → Db
committed db (ok (a, db')) = db'
committed db (err e) = db

abbrev pub is_live : Branch → Bool
is_live b = not (branch_state_eq b.state destroyed)

abbrev pub has_id : String → Branch → Bool
has_id id b = b.id == id

abbrev pub in_state : BranchState → Branch → Bool
in_state s b = branch_state_eq b.state s

-- INSERT INTO transitions
unfoldable pub journal : Call → Entity → String → StateText → StateText → String → Db → Db
journal c entity id from to reason db = record db {
  transitions =
      record {
        entity = entity;
        entity_id = id;
        from_state = from;
        to_state = to;
        reason = reason;
        actor = actor_string c.ctx;
        entity_name = "";
        at = c.now;
      }
      ∷ db.transitions;
}

unfoldable pub find_branch : String → Db → Option Branch
find_branch id db = find_where (has_id id) db.branches

-- The trigger branches_destroyed_forget_password, on a row whose state column was written.
unfoldable pub forget_password : Branch → Branch
forget_password b = if branch_state_eq b.state destroyed then record b { password = "" } else b

-- UPDATE branches SET …, for statements that leave the state column alone
unfoldable pub update_branches : (Branch → Bool) → (Branch → Branch) → Db → Db
update_branches p f db = record db { branches = update_where p f db.branches }

-- UPDATE branches SET state=s, …
unfoldable pub update_state : (Branch → Bool) → BranchState → (Branch → Branch) → Db → Db
update_state p s f db = update_branches p (λ b. forget_password (record (f b) { state = s })) db

-- INSERT INTO branches, under its primary key, the index branches_live_name and the foreign key to
-- sources.
unfoldable pub insert_branch : Branch → Tx (Unit {0})
insert_branch b db =
    if exists_where (has_id b.id) db.branches
    then err (constraint_failed primary_key)
    else if is_live b && exists_where (λ o. is_live o && o.name == b.name) db.branches
    then err (constraint_failed unique)
    else if exists_where (λ s. s.id == b.source_id) db.sources
    then ok (tt, record db { branches = b ∷ db.branches })
    else err (constraint_failed foreign_key)

abbrev pub parent_exists : Option String → List Layer → Bool
parent_exists none layers = true
parent_exists (some p) layers = exists_where (λ l. l.id == p) layers

-- INSERT INTO layers, under its primary key and the foreign key to its parent
unfoldable pub insert_layer : Layer → Tx (Unit {0})
insert_layer l db =
    if exists_where (λ o. o.id == l.id) db.layers
    then err (constraint_failed primary_key)
    else if parent_exists l.parent_layer_id db.layers
    then ok (tt, record db { layers = l ∷ db.layers })
    else err (constraint_failed foreign_key)
