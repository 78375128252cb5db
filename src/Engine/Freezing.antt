-- ===== src/Engine/Freezing.antt =====
-- What the branches of internal/registry hold of the host's volumes, and the calls of a freeze that
-- leave it as it is.
pub mod Steps
pub mod Failing
pub mod Commits
use pgoverlay.Base.{
  ℕ, Bool, true, false, ◌≡◌, refl, ap, ◌∙◌, inl, inr, Option, none, some, List, [], ◌∷◌, String,
  if◌then◌else◌, update_where, Bool-cases,
}
use pgoverlay.Registry.Types.{
  BranchState, ready, destroyed, branch_state_eq, Result, ok, err, Branch, Layer, Db,
}
use pgoverlay.Registry.Sql.{
  Call, Tx, committed, journal, find_branch, forget_password, update_branches, update_state,
}
use pgoverlay.Registry.Branches.{
  lost_race, swap_state, transition_from, transition_branch_set, transition_branch,
  mark_branch_ready,
}
use pgoverlay.Registry.Updates.{
  update_or_missing, store_password, set_branch_password, set_branch_container, touch_branch,
  set_branch_pending_volume,
}

-- A branch's writable volume and the top of its frozen chain
abbrev pub Held : Type 0
Held = String × (String × Option String)

abbrev pub held : Branch → Held
held b = (b.id, (b.rw_volume, b.base_layer_id))

unfoldable pub held_by : List Branch → List Held
held_by [] = []
held_by (b ∷ rest) = held b ∷ held_by rest

-- What all the branches hold, and the table of frozen layers
abbrev pub holdings : Db → List Held × List Layer
holdings db = (held_by db.branches, db.layers)

-- A transaction from `db` that leaves the holdings
unfoldable pub Leaves : {A : Type 0} → Db → Result (A × Db) → Type 0
Leaves db r = holdings (committed db r) ≡ holdings db

both_eq : {a b : Held} {xs ys : List Held} → a ≡ b → xs ≡ ys → (a ∷ xs) ≡ (b ∷ ys)
both_eq h k = cc

held_by-update :
    (p : Branch → Bool) (f : Branch → Branch) (bs : List Branch)
    → ((b : Branch) → held (f b) ≡ held b)
    → held_by (update_where p f bs) ≡ held_by bs
unfolding held_by update_where
held_by-update p f [] same = refl
held_by-update p f (b ∷ rest) same = elim (Bool-cases (p b)) [
  | inl e ↦ rw e (both_eq (same b) (held_by-update p f rest same))
  | inr e ↦ rw e (ap (λ hs. held b ∷ hs) (held_by-update p f rest same))
]

held-forget_password : (b : Branch) → held (forget_password b) ≡ held b
unfolding forget_password
held-forget_password b = elim (Bool-cases (branch_state_eq b.state destroyed)) [
  | inl e ↦ rw e refl
  | inr e ↦ rw e refl
]

update_branches-Leaves :
    (p : Branch → Bool) (f : Branch → Branch) (db : Db)
    → ((b : Branch) → held (f b) ≡ held b)
    → holdings (update_branches p f db) ≡ holdings db
unfolding update_branches
update_branches-Leaves p f db same =
    ap (λ hs. (hs, db.layers)) (held_by-update p f db.branches same)

written-Leaves :
    {A : Type 0} (a : A) (db db' : Db) → holdings db' ≡ holdings db → Leaves db (ok (a, db'))
unfolding Leaves
written-Leaves a db db' h = h

rolled_back-Leaves : (A : Type 0) (db : Db) (x : _) → Leaves {A = A} db (err x)
unfolding Leaves
rolled_back-Leaves A db x = refl

if-Leaves :
    {A : Type 0} (db : Db) (b : Bool) (r s : Result (A × Db))
    → Leaves db r
    → Leaves db s
    → Leaves db (if b then r else s)
if-Leaves db true r s h k = h
if-Leaves db false r s h k = k

lost_race-Leaves : (db : Db) (to : BranchState) (o : Option Branch) → Leaves db (lost_race to o)
unfolding lost_race
lost_race-Leaves db to none = rolled_back-Leaves _ db _
lost_race-Leaves db to (some b) = rolled_back-Leaves _ db _

module _ (c : Call) (id : String) where
  transition_from-Leaves :
      (to : BranchState) (reason : String) (set : Branch → Branch) (o : Option Branch) (db : Db)
      → ((b : Branch) → held (set b) ≡ held b)
      → Leaves db (transition_from c id to reason set o db)
  unfolding transition_from swap_state update_state journal
  transition_from-Leaves to reason set none db same = rolled_back-Leaves _ db _
  transition_from-Leaves to reason set (some b) db same =
      if-Leaves db _ _ _
        (if-Leaves db _ _ _ (lost_race-Leaves db to (find_branch id db)) (
          written-Leaves _ db _
            (update_branches-Leaves _ _ db λ b. held-forget_password _ ∙ same b)))
        (rolled_back-Leaves _ db _)

  pub transition_branch-Leaves :
      (to : BranchState) (reason : String) (db : Db)
      → Leaves db (transition_branch c id to reason db)
  unfolding transition_branch transition_branch_set
  transition_branch-Leaves to reason db = transition_from-Leaves to reason _ _ db λ b. refl

  pub mark_branch_ready-Leaves :
      (container host : String) (port : ℕ) (db : Db)
      → Leaves db (mark_branch_ready c id container host port db)
  unfolding mark_branch_ready transition_branch_set
  mark_branch_ready-Leaves container host port db = transition_from-Leaves ready _ _ _ db λ b. refl

  pub set_branch_container-Leaves :
      (container : String) (db : Db) → Leaves db (set_branch_container c id container db)
  unfolding set_branch_container
  set_branch_container-Leaves container db =
      written-Leaves _ db _ (update_branches-Leaves _ _ db λ b. refl)

  pub touch_branch-Leaves : (db : Db) → Leaves db (touch_branch c id db)
  unfolding touch_branch
  touch_branch-Leaves db = written-Leaves _ db _ (update_branches-Leaves _ _ db λ b. refl)

  store_password-Leaves : (r : Result String) (db : Db) → Leaves db (store_password c id r db)
  unfolding store_password update_or_missing
  store_password-Leaves (ok stored) db =
      if-Leaves db _ _ _ (rolled_back-Leaves _ db _)
        (written-Leaves _ db _ (update_branches-Leaves _ _ db λ b. refl))
  store_password-Leaves (err x) db = rolled_back-Leaves _ db _

  pub set_branch_password-Leaves :
      (encrypt : String → Result String) (password : String) (db : Db)
      → Leaves db (set_branch_password encrypt c id password db)
  unfolding set_branch_password
  set_branch_password-Leaves encrypt password db = store_password-Leaves (encrypt password) db

pub set_branch_pending_volume-Leaves :
    (id volume : String) (db : Db) → Leaves db (set_branch_pending_volume id volume db)
unfolding set_branch_pending_volume update_or_missing
set_branch_pending_volume-Leaves id volume db =
    if-Leaves db _ _ _ (rolled_back-Leaves _ db _)
      (written-Leaves _ db _ (update_branches-Leaves _ _ db λ b. refl))
