-- ===== src/Registry/Volumes.antt =====
-- The volumes that reconcile must keep and the names that a new branch must not take.
use pgoverlay.Base.{
  ℕ, zero, suc, Bool, true, false, not, ◌&&◌, ◌||◌, ◌≡◌, refl, sym, ap, ◌∙◌, inl, inr, Option, none,
  some, List, [], ◌∷◌, ◌++◌, String, ◌==◌, eq_iff, arith, length, All, All-map, map, select_where,
  find_where, exists_where, Bool-cases, Option-cases,
}
use pgoverlay.Registry.Types.{Branch, Layer, Db, ok}
use pgoverlay.Registry.Sql.{is_live, find_branch}
use pgoverlay.Registry.Layers.{is_layer, find_layer, chain, go_on, walk, layer_chain}
use pgoverlay.Registry.Forest.{cons_walk-chain}
use pgoverlay.Registry.Forest.Freeze.{ok-injective, layer_chain_at}
use pgoverlay.Registry.Queries.{volume_name_used, live_volume_set, claims}

abbrev pub member : String → List String → Bool
member v vs = exists_where (λ x. x == v) vs

member-append :
    (v : String) (xs ys : List String) → member v (xs ++ ys) ≡ (member v xs || member v ys)
unfolding exists_where
member-append v [] ys = refl
member-append v (x ∷ xs) ys = ground (arith, member-append v xs ys)

member-select :
    (v : String) (q : String → Bool) (xs : List String)
    → member v (select_where q xs) ≡ (q v && member v xs)
unfolding exists_where select_where
member-select v q [] = ground arith
member-select v q (x ∷ xs) = elim (Bool-cases (x == v)) [
  | inl e ↦ let same : x ≡ v = (eq_iff x v).0 e in ground (arith, member-select v q xs, ap q same)
  | inr e ↦ ground (arith, member-select v q xs)
]

module _ {A : Type 0} (f : A → String) (v : String) where
  member-map : (xs : List A) → member v (map f xs) ≡ exists_where (λ x. f x == v) xs
  unfolding exists_where
  member-map [] = refl
  member-map (x ∷ xs) = ap (λ b. f x == v || b) (member-map xs)

  exists-select :
      (q : A → Bool) (xs : List A)
      → exists_where (λ x. f x == v) (select_where q xs) ≡ true
      → exists_where (λ x. f x == v) xs ≡ true
  unfolding exists_where select_where
  exists-select q [] h = h
  exists-select q (x ∷ xs) h = ground (arith, exists-select q xs)

-- Every volume in the set that reconcile spares counts as used, so that a new branch is never given
-- its name.
pub live_volumes_used :
    (v : String) (db : Db) → member v (live_volume_set db) ≡ true → volume_name_used v db ≡ true
unfolding live_volume_set volume_name_used
live_volumes_used v db h =
    let split : (not (v == "")
          && (exists_where (λ b. b.rw_volume == v) (select_where is_live db.branches)
              || (exists_where (λ b. b.source_volume == v) (select_where is_live db.branches)
                  || (exists_where (λ s. s.volume == v) db.sources
                      || (exists_where (λ l. l.volume == v) db.layers
                          || (exists_where (λ b. b.pending_volume == v)
                                (select_where claims db.branches)
                              || exists_where (λ s. s.pending_volume == v) db.sources))))))
        ≡ true =
      simp (member-append, member-select, member-map) at h in
    ground (
      arith,
      split,
      exists-select (λ b. b.rw_volume) v is_live db.branches,
      exists-select (λ b. b.source_volume) v is_live db.branches,
      exists-select (λ b. b.pending_volume) v claims db.branches,
    )

-- a volume of the row that a test picks
exists_of_row :
    {A : Type 0} (f : A → String) (q : A → Bool) (p : A → Bool) (xs : List A) (a : A)
    → find_where p xs ≡ some a
    → q a ≡ true
    → exists_where (λ x. x == f a) (map f (select_where q xs)) ≡ true
unfolding find_where exists_where select_where
exists_of_row f q p [] a e k = absurd (cc)
exists_of_row f q p (x ∷ xs) a e k = elim (Bool-cases (p x)) [
  | inl hit ↦
      let same : x ≡ a = ground arith in
      rw (← same) (rw (ap q same ∙ k) (ground (arith, eq_iff (f x) (f x))))
  | inr miss ↦
      let rest = exists_of_row f q p xs a (ground arith) k in
      elim (Bool-cases (q x)) [ inl in_q ↦ rw in_q (ground (arith, rest)) | inr out ↦ rw out rest ]
]

exists_of_find_as :
    {A : Type 0} (f : A → String) (p : A → Bool) (xs : List A) (a : A)
    → find_where p xs ≡ some a
    → exists_where (λ x. f x == f a) xs ≡ true
unfolding find_where exists_where
exists_of_find_as f p [] a e = absurd (cc)
exists_of_find_as f p (x ∷ xs) a e = elim (Bool-cases (p x)) [
  | inl hit ↦ let same : x ≡ a = ground arith in rw (← same) (ground (arith, eq_iff (f x) (f x)))
  | inr miss ↦ let rest = exists_of_find_as f p xs a (ground arith) in ground (arith, rest)
]

abbrev InLayers : List Layer → Layer → Type 0
InLayers layers l = exists_where (λ x. x.volume == l.volume) layers ≡ true

walk-InLayers :
    (fuel : ℕ) (layers : List Layer) (o : Option String) (ms : List Layer)
    → walk fuel layers o ≡ chain ms
    → All (InLayers layers) ms
unfolding walk
walk-InLayers fuel layers none [] e = tt
walk-InLayers fuel layers none (m ∷ ms) e = absurd (cc)
walk-InLayers zero layers (some id) ms e = absurd (cc)
walk-InLayers (suc fuel) layers (some id) ms e = elim (Option-cases (find_layer id layers)) [
  | inl lost ↦ absurd (cc (e, ap (λ o. go_on o (λ l. walk fuel layers l.parent_layer_id)) lost))
  | inr (l, found) ↦
      let (rest, walked, joined) =
        cons_walk-chain l (walk fuel layers l.parent_layer_id) ms
          (sym (ap (λ o. go_on o (λ l. walk fuel layers l.parent_layer_id)) found) ∙ e) in
      rw (← joined) (
        exists_of_find_as (λ x. x.volume) (is_layer id) layers l (unfold find_layer in found),
        walk-InLayers fuel layers l.parent_layer_id rest walked,
      )
]

abbrev pub IsKept : Db → String → Type 0
IsKept db v = (v == "" || member v (live_volume_set db)) ≡ true

IsKept-if :
    (db : Db) (v : String)
    → ((v == "") ≡ false → member v (live_volume_set db) ≡ true)
    → IsKept db v
IsKept-if db v h = elim (Bool-cases (v == "")) [ inl e ↦ rw e refl | inr e ↦ rw e (h e) ]

module _ (db : Db) where
  layer-IsKept : (l : Layer) → InLayers db.layers l → IsKept db l.volume
  unfolding live_volume_set
  layer-IsKept l h =
      IsKept-if db l.volume
        λ named. simp (member-append, member-select, member-map) (ground (arith, h, named))

  row-IsKept :
      (id : String) (b : Branch)
      → find_branch id db ≡ some b
      → is_live b ≡ true
      → IsKept db b.rw_volume × IsKept db b.source_volume
  unfolding live_volume_set find_branch
  row-IsKept id b e live = (
    (IsKept-if db _ λ named.
        simp (member-append, member-select)
          (ground (
            arith,
            named,
            exists_of_row (λ r. r.rw_volume) is_live (λ r. r.id == id) db.branches b e live,
          ))),
    (IsKept-if db _ λ named.
        simp (member-append, member-select)
          (ground (
            arith,
            named,
            exists_of_row (λ r. r.source_volume) is_live (λ r. r.id == id) db.branches b e live,
          ))),
  )

  -- The set that reconcile's volume collection spares has all that a live branch with a complete
  -- layer chain stands on: its writable volume, its source volume and the volume of each layer of its
  -- chain, where they are named.
  pub live_branch_volumes-IsKept :
      (id : String) (b : Branch) (ms : List Layer)
      → find_branch id db ≡ some b
      → is_live b ≡ true
      → layer_chain id db ≡ ok (chain ms)
      → IsKept db b.rw_volume × IsKept db b.source_volume × All (λ l. IsKept db l.volume) ms
  live_branch_volumes-IsKept id b ms e live walked =
      let rows = row-IsKept id b e live in
      (
        rows.0,
        rows.1,
        All-map _ _ layer-IsKept ms (
            walk-InLayers (suc (length db.layers)) db.layers b.base_layer_id ms
              (ok-injective _ _ (sym (layer_chain_at id db b e) ∙ walked))),
      )
