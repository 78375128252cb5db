-- ===== src/Registry/Referring.antt =====
-- What the reads that reconcile goes by say of one live branch: ListLiveBranches, LayerChain and
-- CountBranchesReferencingLayer of internal/registry/registry.go.
use pgoverlay.Base.{
  ℕ, zero, suc, length, find_where_holds, Option-cases, count_where, sym, ap, ◌∙◌, Bool, true,
  false, ◌≡◌, refl, inl, inr, Option, none, some, List, [], ◌∷◌, String, eq_iff, arith,
  select_where, Bool-cases, find_where, exists_where,
}
use mathlib.Core.Path.{subst}
use pgoverlay.Registry.Types.{ok, Branch, Layer, Db}
use pgoverlay.Registry.Sql.{is_live, has_id, find_branch}
use pgoverlay.Registry.Forest.{cons_walk-chain}
use pgoverlay.Registry.Forest.Freeze.{ok-injective, layer_chain_at}
use pgoverlay.Registry.Layers.{chain, layer_chain, walk, is_layer, find_layer, refers_to}
use pgoverlay.Registry.Queries.{list_live_branches}

pub found_live :
    (db : Db) (id : String) (b : Branch) (p : Branch → Bool)
    → find_branch id db ≡ some b
    → is_live b ≡ true
    → p b ≡ true
    → exists_where p (list_live_branches db) ≡ true
unfolding find_branch list_live_branches find_where exists_where select_where
found_live db id b p row live hit = found_in db.branches row
  where
    found_in :
        (bs : List Branch)
        → find_where (has_id id) bs ≡ some b
        → exists_where p (select_where is_live bs) ≡ true
    found_in [] h = absurd (cc)
    found_in (x ∷ bs) h = elim (Bool-cases (has_id id x)) [
      | inl this ↦ let same : x ≡ b = ground (arith, h, this) in rw same (rw live (rw hit refl))
      | inr other ↦
          let later = found_in bs (ground (arith, h, other)) in
          elim (Bool-cases (is_live x)) [
            | inl up ↦ rw up (ground (arith, later))
            | inr down ↦ rw down later
          ]
    ]

pub none_counted :
    (db : Db) (id : String) (b : Branch) (p : Branch → Bool)
    → find_branch id db ≡ some b
    → count_where p db.branches ≡ 0
    → p b ≡ false
unfolding find_branch find_where count_where
none_counted db id b p row none_left = of_rows db.branches row none_left
  where
    of_rows :
        (bs : List Branch) → find_where (has_id id) bs ≡ some b → count_where p bs ≡ 0 → p b ≡ false
    of_rows [] h n = absurd (cc)
    of_rows (x ∷ bs) h n = elim (Bool-cases (has_id id x)) [
      | inl this ↦ let same : x ≡ b = ground (arith, h, this) in rw (← same) (ground (arith, n))
      | inr other ↦ of_rows bs (ground (arith, h, other)) (ground (arith, n))
    ]

module _ (layers : List Layer) where
  chain_head :
      (fuel : ℕ) (x : String) (ms : List Layer)
      → walk (suc fuel) layers (some x) ≡ chain ms
      → (l : Layer) × (rest : List Layer) × (find_layer x layers ≡ some l)
        × (l.id ≡ x)
        × (walk fuel layers l.parent_layer_id ≡ chain rest)
        × (l ∷ rest ≡ ms)
  unfolding walk find_layer
  chain_head fuel x ms walked = elim (Option-cases (find_layer x layers)) [
    | inl lost ↦ absurd (cc (rw lost at walked))
    | inr (l, found) ↦
        let (rest, later, joined) =
          cons_walk-chain l (walk fuel layers l.parent_layer_id) ms (rw found at walked) in
        (
          l,
          rest,
          found,
          (eq_iff l.id x).0 (find_where_holds (is_layer x) layers l found),
          later,
          joined,
        )
  ]

  ends_here : (o : Option String) (rest : List Layer) → walk 0 layers o ≡ chain rest → [] ≡ rest
  unfolding walk
  ends_here none rest h = cc
  ends_here (some x) rest h = absurd (cc)

  has_layer :
      (id : String) {ms ns : List Layer}
      → ms ≡ ns
      → exists_where (is_layer id) ms ≡ true
      → exists_where (is_layer id) ns ≡ true
  has_layer id same h = subst (λ ls. exists_where (is_layer id) ls ≡ true) same h

  -- The query refers to each layer of a complete chain.
  pub refers-chain :
      (id : String) (fuel : ℕ) (o : Option String) (ms : List Layer)
      → walk (suc fuel) layers o ≡ chain ms
      → exists_where (is_layer id) ms ≡ true
      → refers_to id fuel layers o ≡ true
  unfolding refers_to exists_where walk
  refers-chain id fuel none [] walked here = absurd (cc)
  refers-chain id fuel none (m ∷ ms) walked here = absurd (cc)
  refers-chain id zero (some x) ms walked here =
      let (l, rest, found, named, later, joined) = chain_head zero x ms walked in
      let last = ends_here l.parent_layer_id rest later in
      let only : exists_where (is_layer id) (l ∷ []) ≡ true =
        has_layer id (sym (ap (λ r. l ∷ r) last ∙ joined)) here in
      rw (← named) (ground (arith, only))
  refers-chain id (suc fuel) (some x) ms walked here =
      let (l, rest, found, named, later, joined) = chain_head (suc fuel) x ms walked in
      let some_of : exists_where (is_layer id) (l ∷ rest) ≡ true = has_layer id (sym joined) here in
      let below = refers-chain id fuel l.parent_layer_id rest later in
      rw (← named) (rw (named, found) (ground (arith, some_of, below)))

pub chain_at :
    (db : Db) (id : String) (b : Branch) (ms : List Layer)
    → find_branch id db ≡ some b
    → layer_chain id db ≡ ok (chain ms)
    → walk (suc (length db.layers)) db.layers b.base_layer_id ≡ chain ms
chain_at db id b ms row walked = ok-injective _ _ (sym (layer_chain_at id db b row) ∙ walked)
