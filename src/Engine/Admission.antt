-- ===== src/Engine/Admission.antt =====
-- What CreateBranch, CreateBranchFrom and ResetBranch of internal/engine (saga.go, freeze.go) check
-- before they change anything.
use pgoverlay.Base.{
  ℕ, true, false, not, ◌<◌, ◌≡◌, refl, ◌∙◌, ◌⊎◌, inl, inr, List, [], ◌∷◌, String, arith, nat_eq,
  nat_eq_iff, Bool-cases,
}
use pgoverlay.Registry.Types.{
  source_ready, source_state_eq, ready, branch_state_eq, ok, Source, Branch, Db,
}
use pgoverlay.Registry.Queries.{
  get_branch_by_name, count_live_branches, count_live_branches_by_volume, in_flight_children,
}
use pgoverlay.Registry.Lookups.{get_source_by_name}
use pgoverlay.Engine.Names.{codes, valid_name}
use pgoverlay.Engine.World.{done, Engine, World}
use pgoverlay.Engine.Actions.{raise, ◌>>=◌, look}
use pgoverlay.Engine.Layers.{is_zfs}
use pgoverlay.Engine.Create.{
  at_cap, validate_name, check_quota, make_branch, create_branch_saga, check_csi_child_base,
  check_child_committed, check_no_clones, none_left, check_children_allow_reprovision, reset_branch,
}
use pgoverlay.Engine.Flow.{Stays, control}
use pgoverlay.Engine.Freeze.{create_branch_from}
use pgoverlay.Engine.Checks.{
  Needs, check-Needs, last_read-Needs, bind_done, looked, required, asked, named_done,
}

module _ (e : Engine) where
  abbrev pub HasRoom : Db → Type 0
  HasRoom db = (e.max_branches ≡ 0) ⊎ (count_live_branches db < e.max_branches)

  below_cap : (cap n : ℕ) → at_cap cap n ≡ false → (cap ≡ 0) ⊎ (n < cap)
  unfolding at_cap
  below_cap cap n h = elim (Bool-cases (nat_eq cap 0)) [
    | inl none_set ↦ inl (ground (arith, none_set))
    | inr limited ↦ inr (ground (arith, h, limited))
  ]

  quota_checked : (w : World e) → (check_quota e w).0 ≡ done tt → HasRoom w.db
  unfolding check_quota ◌>>=◌ look
  quota_checked w h =
      below_cap e.max_branches (count_live_branches w.db)
        (ground (arith, required (not (at_cap e.max_branches (count_live_branches w.db))) _ w h))

  quota_reads : (w : World e) → Stays (λ v. v ≡ w) (check_quota e)
  unfolding check_quota
  quota_reads w = search control

  name_reads : (w : World e) (name : String) → Stays (λ v. v ≡ w) (validate_name e "branch" name)
  unfolding validate_name
  name_reads w name = search control

  name_checked :
      (w : World e) (name : String)
      → (validate_name e "branch" name w).0 ≡ done tt
      → valid_name (codes name) ≡ true
  unfolding validate_name
  name_checked w name h = required _ _ w h

  abbrev pub Admitted : String → String → Db → Type 0
  Admitted name source_name db =
      (valid_name (codes name) ≡ true)
      × HasRoom db
      × ((s : Source) × (get_source_by_name source_name db ≡ ok s)
          × (source_state_eq s.state source_ready ≡ true))

  -- A create changes nothing, neither in the tables nor on the host, unless the branch's name is valid, the
  -- live branches are fewer than the limit, if one is set, and the source exists and is ready.
  pub create_branch_saga-Admitted :
      (name source_name : String) (ttl : ℕ) (w : World e)
      → ((create_branch_saga e name source_name ttl w).1 ≡ w) ⊎ Admitted name source_name w.db
  unfolding create_branch_saga make_branch Needs
  create_branch_saga-Admitted name source_name ttl w =
      last_read-Needs (Admitted name source_name w.db) (make_branch e name source_name ttl) _ w (
        check-Needs _ _ _ w (name_reads w name) λ _ named.
          check-Needs _ _ _ w (quota_reads w) λ _ room.
            check-Needs _ _ _ w (search control) λ s found.
              check-Needs _ _ _ w (search control) λ _ seeded. inr (
                name_checked w name named,
                quota_checked w room,
                (s, asked _ w s found, required _ _ w seeded),
              ))

  no_kids :
      (b : Branch) (kids : List String) (w : World e)
      → (none_left e b kids w).0 ≡ done tt
      → kids ≡ []
  unfolding raise
  no_kids b [] w h = refl
  no_kids b (kid ∷ rest) w h = absurd (cc)

  base_reads : (w : World e) (b : Branch) → Stays (λ v. v ≡ w) (check_csi_child_base e b)
  unfolding check_csi_child_base
  base_reads w b = search control

  committed_reads : (w : World e) (b : Branch) → Stays (λ v. v ≡ w) (check_child_committed e b)
  unfolding check_child_committed
  committed_reads w b = search control

  none_left_reads :
      (w : World e) (b : Branch) (kids : List String) → Stays (λ v. v ≡ w) (none_left e b kids)
  none_left_reads w b [] = search control
  none_left_reads w b (kid ∷ rest) = search control

  children_reads :
      (w : World e) (b : Branch) → Stays (λ v. v ≡ w) (check_children_allow_reprovision e b)
  unfolding check_children_allow_reprovision check_no_clones
  children_reads w b = search (control, none_left_reads)

  abbrev pub IsFree : Branch → Db → Type 0
  IsFree b db =
      (in_flight_children b.name db ≡ [])
      × (is_zfs e ≡ true → count_live_branches_by_volume b.rw_volume db ≡ 0)

  clones_reads : (w : World e) (b : Branch) → Stays (λ v. v ≡ w) (check_no_clones e b)
  unfolding check_no_clones
  clones_reads w b = search control

  clones_checked :
      (b : Branch) (w : World e)
      → (check_no_clones e b w).0 ≡ done tt
      → is_zfs e ≡ true
      → count_live_branches_by_volume b.rw_volume w.db ≡ 0
  unfolding check_no_clones
  clones_checked b w h zfs =
      let (n, counted, free) = bind_done _ _ w tt (search control) h in
      let none_there : nat_eq n 0 ≡ true = ground (arith, zfs, required _ _ w free) in
      looked _ w n counted ∙ (nat_eq_iff n 0).0 none_there

  children_checked :
      (b : Branch) (w : World e)
      → (check_children_allow_reprovision e b w).0 ≡ done tt
      → IsFree b w.db
  unfolding check_children_allow_reprovision
  children_checked b w h =
      let (kids, listed, none_there) = bind_done _ _ w tt (search (control, clones_reads)) h in
      let (_, clones, seen) = bind_done _ _ w kids (clones_reads w b) listed in
      (looked _ w kids seen ∙ no_kids b kids w none_there, clones_checked b w clones)

  -- A reset changes nothing, neither in the tables nor on the host, unless a branch has the name, none of its
  -- children is still being made from it, and on the ZFS backend no live branch is a clone of its volume.
  pub reset_branch-IsFree :
      (name : String) (w : World e)
      → ((reset_branch e name w).1 ≡ w)
        ⊎ ((b : Branch) × (get_branch_by_name name w.db ≡ ok b) × IsFree b w.db)
  unfolding reset_branch Needs
  reset_branch-IsFree name w = check-Needs _ _ _ w (search control) λ b found.
      check-Needs _ _ _ w (search (control, base_reads)) λ _ _.
        check-Needs _ _ _ w (committed_reads w b) λ _ _. check-Needs _ _ _ w (search control) λ s _.
          check-Needs _ _ _ w (children_reads w b)
            λ _ free. inr (b, asked _ w b found, children_checked b w free)

  abbrev pub AdmittedFrom : String → String → Db → Type 0
  AdmittedFrom name parent_name db =
      (valid_name (codes name) ≡ true)
      × HasRoom db
      × ((b : Branch) × (get_branch_by_name parent_name db ≡ ok b)
          × (branch_state_eq b.state ready ≡ true))

  -- A create from a parent changes nothing, neither in the tables nor on the host, unless the branch's name
  -- is valid, the live branches are fewer than the limit, if one is set, and the parent exists and is ready.
  pub create_branch_from-AdmittedFrom :
      (name parent_name : String) (ttl : ℕ) (w : World e)
      → ((create_branch_from e name parent_name ttl w).1 ≡ w) ⊎ AdmittedFrom name parent_name w.db
  unfolding create_branch_from Needs
  create_branch_from-AdmittedFrom name parent_name ttl w =
      check-Needs _ _ _ w (name_reads w name) λ _ named.
        check-Needs _ _ _ w (quota_reads w) λ _ room.
          check-Needs _ _ _ w (search control) λ b found.
            check-Needs _ _ _ w (search control) λ _ up. inr (
              name_checked w name named,
              quota_checked w room,
              (b, asked _ w b (named_done "parent" _ w b found), required _ _ w up),
            )
