-- ===== src/Registry/Sound/Creation.antt =====
-- The creation of a branch keeps the registry sound.
use pgoverlay.Base.{
  Bool, true, false, ◌&&◌, ◌≡◌, refl, sym, ap, ◌∙◌, inl, inr, ◌∷◌, String, ◌==◌, eq_iff, arith,
  All-map, All-both, All-of_not_exists, count_where, exists_where, count_of_not_exists,
  count-le_of_sub, Bool-cases,
}
use pgoverlay.Registry.Types.{creating, blank, of_branch, branch, Branch, Db}
use pgoverlay.Registry.Sql.{Call, committed, is_live, has_id, journal, insert_branch}
use pgoverlay.Registry.Branches.{new_branch, create_branch}
use pgoverlay.Registry.Sources.{has_source_id}
use pgoverlay.Registry.Queries.{live_with_name}
use pgoverlay.Registry.Trail.{IsTrail-journal, last_state-journal_self, last_state-journal_ne}
use pgoverlay.Registry.Sound.Keys.{IsSound}

-- the rows that the index branches_live_name compares with
abbrev held : Branch → Branch → Bool
held b o = is_live o && o.name == b.name

module _ (c : Call) (b : Branch) (db : Db) (s : IsSound db) where
  -- A row that the constraints let in
  pub inserted-IsSound :
      b.state ≡ creating
      → exists_where (has_id b.id) db.branches ≡ false
      → exists_where (held b) db.branches ≡ false
      → exists_where (has_source_id b.source_id) db.sources ≡ true
      → IsSound (
          journal c branch b.id blank
            (of_branch creating)
            "created"
            (record db { branches = b ∷ db.branches }))
  unfolding journal count_where
  inserted-IsSound fresh new_id new_name home = record {
    ids = λ i. ground (arith, s.ids i, eq_iff b.id i, no_id i);
    names = λ n. ground (arith, s.names n, eq_iff b.name n, no_name n);
    states = (
      last_state-journal_self c b.id blank (of_branch creating) "created" with_row
          ∙ ap of_branch (sym fresh),
      All-map _ _
          (λ o h.
            last_state-journal_ne c b.id blank (of_branch creating) "created" with_row o.id h.1
            ∙ h.0)
          db.branches
          (All-both _ _ db.branches s.states (All-of_not_exists (has_id b.id) db.branches new_id)),
    );
    trail =
        IsTrail-journal c b.id blank (of_branch creating) "created" with_row refl (inl refl)
          s.trail;
    homes = (home, s.homes);
  }
    where
      with_row : Db
      with_row = record db { branches = b ∷ db.branches }

      no_id : (i : String) → b.id ≡ i → count_where (has_id i) db.branches ≡ 0
      no_id i e = rw (← e) (count_of_not_exists (has_id b.id) db.branches new_id)

      no_name : (n : String) → b.name ≡ n → count_where (live_with_name n) db.branches ≡ 0
      no_name n e = omega (
        arith,
        count_of_not_exists (held b) db.branches new_name,
        count-le_of_sub (held b) (live_with_name n) db.branches
            (λ o h. ground (arith, eq_iff o.name n, eq_iff o.name b.name)),
      )

module _ (c : Call) (b : Branch) (db : Db) (s : IsSound db) where
  pub create_branch-IsSound : IsSound (committed db (create_branch c b db))
  unfolding create_branch insert_branch
  create_branch-IsSound = elim (Bool-cases (exists_where (has_id c.new_id) db.branches)) [
    | inl e ↦ rw e s
    | inr new_id ↦ elim (Bool-cases (exists_where (held (new_branch c b)) db.branches)) [
      | inl e ↦ rw (new_id, e) s
      | inr new_name ↦ elim (Bool-cases (exists_where (has_source_id b.source_id) db.sources)) [
        | inr e ↦ rw (new_id, new_name, e) s
        | inl home ↦
            rw (new_id, new_name, home)
              (inserted-IsSound c (new_branch c b) db s refl new_id new_name home)
      ]
    ]
  ]
