-- ===== src/Registry/Types.antt =====
-- The states, rows and errors of internal/registry/registry.go, and the two state machines.
-- A row has the columns of internal/registry/schema.go at its latest version. SQL NULL is `none`.
use pgoverlay.Base.{arith, ℕ, ◌≡◌, Bool, true, false, ◌||◌, Option, List, [], ◌∷◌, String}

pub data SourceState : Type 0 where
  seeding source_ready source_failed : SourceState

pub data BranchState : Type 0 where
  creating ready failed resetting destroying destroyed : BranchState

abbrev pub branch_state_eq : BranchState → BranchState → Bool
branch_state_eq creating creating = true
branch_state_eq ready ready = true
branch_state_eq failed failed = true
branch_state_eq resetting resetting = true
branch_state_eq destroying destroying = true
branch_state_eq destroyed destroyed = true
branch_state_eq _ _ = false

abbrev pub source_state_eq : SourceState → SourceState → Bool
source_state_eq seeding seeding = true
source_state_eq source_ready source_ready = true
source_state_eq source_failed source_failed = true
source_state_eq _ _ = false

-- The texts that the journal's state columns hold: "" for a row that is being created, a state of
-- either machine, or the journal-only marker of a removed source.
pub data StateText : Type 0 where
  blank unknown deleted : StateText
  of_source : SourceState → StateText
  of_branch : BranchState → StateText

pub data Entity : Type 0 where
  source branch : Entity

abbrev pub is_branch_entity : Entity → Bool
is_branch_entity source = false
is_branch_entity branch = true

pub data Constraint : Type 0 where
  primary_key unique foreign_key : Constraint

pub data Error : Type 0 where
  not_found : Error
  no_such : Entity → String → Error
  already_exists : Entity → String → StateText → Error
  illegal_transition : Entity → StateText → StateText → Error
  invalid_image unsupported_pg_version : String → Error
  constraint_failed : Constraint → Error
  secret_error : Error

pub data Result {ℓ} (A : Type ℓ) : Type ℓ where
  ok : A → Result A
  err : Error → Result A

pub record Source : Type 0 where
  pub id : String
  pub name : String
  pub pg_version : String
  pub volume : String
  pub conn_host : String
  pub conn_port : ℕ
  pub conn_user : String
  pub conn_db : String
  pub network : String
  pub seed_via : String
  pub dump_schemas : String
  pub image : String
  pub generation : ℕ
  pub state : SourceState
  pub pending_volume : String
  pub created_at : String
  pub updated_at : String

pub record Branch : Type 0 where
  pub id : String
  pub name : String
  pub source_id : String
  pub container_id : String
  pub rw_volume : String
  pub source_volume : String
  pub expires_at : String
  pub host : String
  pub base_layer_id : Option String
  pub parent_branch_name : String
  pub password : String
  pub pending_volume : String
  pub port : ℕ
  pub state : BranchState
  pub created_at : String
  pub updated_at : String

pub record Layer : Type 0 where
  pub id : String
  pub source_id : String
  pub volume : String
  pub parent_layer_id : Option String

pub record Transition : Type 0 where
  pub entity : Entity
  pub entity_id : String
  pub from_state : StateText
  pub to_state : StateText
  pub reason : String
  pub actor : String
  pub entity_name : String
  pub at : String

pub record MaskScript : Type 0 where
  pub source_id : String
  pub ord : ℕ
  pub name : String
  pub sql : String

-- The tables. `transitions` and `layers` have their newest row first.
pub record Db : Type 0 where
  pub sources : List Source
  pub branches : List Branch
  pub layers : List Layer
  pub transitions : List Transition
  pub mask_scripts : List MaskScript

abbrev pub empty_db : Db
empty_db = record { sources = []; branches = []; layers = []; transitions = []; mask_scripts = [] }

abbrev pub legal_branch : BranchState → List BranchState
legal_branch creating = ready ∷ failed ∷ []
legal_branch ready = destroying ∷ resetting ∷ []
legal_branch resetting = ready ∷ failed ∷ []
legal_branch failed = resetting ∷ destroying ∷ []
legal_branch destroying = destroyed ∷ []
legal_branch destroyed = []

abbrev pub legal_source : SourceState → List SourceState
legal_source seeding = source_ready ∷ source_failed ∷ []
legal_source source_ready = []
legal_source source_failed = []

abbrev contains_branch_state : List BranchState → BranchState → Bool
contains_branch_state [] to = false
contains_branch_state (s ∷ rest) to = branch_state_eq s to || contains_branch_state rest to

abbrev contains_source_state : List SourceState → SourceState → Bool
contains_source_state [] to = false
contains_source_state (s ∷ rest) to = source_state_eq s to || contains_source_state rest to

abbrev pub legal_branch_transition : BranchState → BranchState → Bool
legal_branch_transition from to = contains_branch_state (legal_branch from) to

abbrev pub legal_source_transition : SourceState → SourceState → Bool
legal_source_transition from to = contains_source_state (legal_source from) to

pub branch_state_eq_sound : (a b : BranchState) → branch_state_eq a b ≡ true → a ≡ b
branch_state_eq_sound a b h = ground arith
