-- ===== src/Registry/Sound/Keys.antt =====
-- What holds of the registry's tables between two calls, and the UPDATEs that keep it.
use native.Mathlib.Nat.{le_trans}
use pgoverlay.Base.{
  ◌≤◌, Bool, true, false, ◌≡◌, refl, List, String, ◌==◌, eq_iff, arith, if◌then◌else◌, All,
  All-every, All-map, All-update, All-both, count_where, exists_where, count-update-le,
}
use pgoverlay.Registry.Types.{BranchState, of_branch, Result, Branch, Transition, Db}
use pgoverlay.Registry.Sql.{
  committed, is_live, has_id, forget_password, update_branches, update_state,
}
use pgoverlay.Registry.Sources.{has_source_id}
use pgoverlay.Registry.Queries.{live_with_name}
use pgoverlay.Registry.Trail.{last_state, IsTrail}

pub record IsSound (db : Db) : Type 0 where
  -- at most one row has an id, and at most one live row has a name
  pub ids : (i : String) → count_where (has_id i) db.branches ≤ 1
  pub names : (n : String) → count_where (live_with_name n) db.branches ≤ 1
  -- the audit trail records the state that each row is in, and is legal
  pub states : All (λ b. last_state b.id db.transitions ≡ of_branch b.state) db.branches
  pub trail : IsTrail db.transitions
  -- each row's source exists
  pub homes : All (λ b. exists_where (has_source_id b.source_id) db.sources ≡ true) db.branches

-- A write to columns other than these.
abbrev pub KeepsNames : (Branch → Branch) → Type 0
KeepsNames f =
    (b : Branch) → ((f b).id ≡ b.id) × ((f b).name ≡ b.name) × ((f b).source_id ≡ b.source_id)

abbrev pub KeepsState : (Branch → Branch) → Type 0
KeepsState f = (b : Branch) → (f b).state ≡ b.state

module _ (q : Branch → Bool) (f : Branch → Branch) (db : Db) where
  pub update_branches-IsSound :
      KeepsNames f → KeepsState f → IsSound db → IsSound (update_branches q f db)
  unfolding update_branches
  update_branches-IsSound keep same s = record {
    ids = λ i.
        le_trans
          (count-update-le (has_id i) q f db.branches
            (All-every _ (λ b _ h. ground (arith, keep b)) db.branches))
          (s.ids i);
    names = λ n.
        le_trans
          (count-update-le (live_with_name n) q f db.branches
            (All-every _ (λ b _ h. ground (arith, keep b, same b)) db.branches))
          (s.names n);
    states =
        All-update (λ b. last_state b.id db.transitions ≡ of_branch b.state) _ q f
          (λ b h _. ground (arith, keep b, same b)) (λ b h _. h) db.branches s.states;
    trail = s.trail;
    homes =
        All-update (λ b. exists_where (has_source_id b.source_id) db.sources ≡ true) _ q f
          (λ b h _. ground (arith, keep b)) (λ b h _. h) db.branches s.homes;
  }

pub forget_password_keys :
    (b : Branch)
    → ((forget_password b).id ≡ b.id)
      × ((forget_password b).name ≡ b.name)
      × ((forget_password b).source_id ≡ b.source_id)
      × ((forget_password b).state ≡ b.state)
unfolding forget_password
forget_password_keys b = ground arith

-- The UPDATE that moves the rows in `q`, all of them and no others with the id `i`, into state `to`, and
-- a trail that records it.
module _ (i : String) (to : BranchState) (q : Branch → Bool) (f : Branch → Branch) (db : Db)
    (ts : List Transition) (keep : KeepsNames f) where
  pub update_state-IsSound :
      ((b : Branch) → q b ≡ true → has_id i b ≡ true)
      → All (λ b. has_id i b ≡ true → q b ≡ true) db.branches
      → All (λ b. q b ≡ true → is_live b ≡ true) db.branches
      → last_state i ts ≡ of_branch to
      → ((j : String) → (j == i) ≡ false → last_state j ts ≡ last_state j db.transitions)
      → IsTrail ts
      → IsSound db
      → IsSound (record (update_state q to f db) { transitions = ts })
  unfolding update_state update_branches
  update_state-IsSound inside whole live now_in others legal s = record {
    ids = λ j.
        le_trans
          (count-update-le (has_id j) q moved db.branches
            (All-every _ (λ b _ h. ground (arith, keep b, keys b)) db.branches))
          (s.ids j);
    names = λ n.
        le_trans
          (count-update-le (live_with_name n) q moved db.branches
            (All-map _ _ (λ b l e h. ground (arith, keep b, keys b, l e)) db.branches live))
          (s.names n);
    states =
        All-update
          (λ b.
            (last_state b.id db.transitions ≡ of_branch b.state) × (has_id i b ≡ true → q b ≡ true))
          _ q moved (λ b h e. ground (arith, keep b, keys b, inside b e, eq_iff b.id i, now_in))
          (λ b h e. ground (arith, others b.id, h.0, h.1)) db.branches
          (All-both _ _ db.branches s.states whole);
    trail = legal;
    homes =
        All-update (λ b. exists_where (has_source_id b.source_id) db.sources ≡ true) _ q moved
          (λ b h _. ground (arith, keep b, keys b)) (λ b h _. h) db.branches s.homes;
  }
    where
      moved : Branch → Branch
      moved b = forget_password (record (f b) { state = to })

      keys :
          (b : Branch)
          → ((moved b).id ≡ (f b).id)
            × ((moved b).name ≡ (f b).name)
            × ((moved b).source_id ≡ (f b).source_id)
            × ((moved b).state ≡ to)
      keys b = forget_password_keys (record (f b) { state = to })

-- A test inside a transaction: it is enough to look at the branches.
pub IsSound-if :
    {A : Type 0} (db : Db) (b : Bool) (x y : Result (A × Db))
    → (b ≡ true → IsSound (committed db x))
    → (b ≡ false → IsSound (committed db y))
    → IsSound (committed db (if b then x else y))
IsSound-if db true x y h k = h refl
IsSound-if db false x y h k = k refl
