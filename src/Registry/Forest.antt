-- ===== src/Registry/Forest.antt =====
-- Layers form a forest: ids are unique and each parent was frozen before its child. So every chain ends.
pub mod Writes
pub mod Kept
pub mod Freeze
use pgoverlay.Base.{
  ℕ, zero, suc, ◌+◌, ◌≤◌, Bool, true, false, not, ◌&&◌, ◌||◌, ◌≡◌, ◌≢◌, refl, sym, ap, ◌∙◌, ◌⊎◌,
  inl, inr, Option, none, some, List, [], ◌∷◌, String, ◌==◌, eq_iff, arith, if◌then◌else◌, length,
  All, All-delete, All-map, All-both, and_true, find_where, exists_where, delete_where, Bool-cases,
  Option-cases,
}
use pgoverlay.Registry.Types.{Layer, Db, Branch, Result, ok, err}
use pgoverlay.Registry.Sql.{Call, committed, parent_exists, insert_layer}
use pgoverlay.Registry.Sources.{all_parents_exist}
use pgoverlay.Registry.Layers.{
  is_layer, is_child_of, find_layer, Walk, chain, missing_layer, out_of_fuel, cons_walk, go_on,
  walk,
}

abbrev pub IsForest : List Layer → Type 0
IsForest [] = Unit
IsForest (l ∷ older) =
    (exists_where (is_layer l.id) older ≡ false)
    × (parent_exists l.parent_layer_id older ≡ true)
    × IsForest older

-- The newest layer stands apart from a chain that begins below it.
find_layer_older :
    (l : Layer) (older : List Layer) (id : String)
    → exists_where (is_layer l.id) older ≡ false
    → exists_where (is_layer id) older ≡ true
    → find_layer id (l ∷ older) ≡ find_layer id older
unfolding find_layer find_where
find_layer_older l older id new here = elim (Bool-cases (l.id == id)) [
  | inl e ↦
      let e' : l.id ≡ id = (eq_iff l.id id).0 e in
      absurd (ground (arith, ap (λ i. exists_where (is_layer i) older) e'))
  | inr e ↦ rw e
]

-- A layer that is found there has its parent there.
find_layer-parent :
    (ls : List Layer) (id : String) (m : Layer)
    → IsForest ls
    → find_layer id ls ≡ some m
    → parent_exists m.parent_layer_id ls ≡ true
unfolding find_layer find_where exists_where
find_layer-parent [] id m f e = absurd (cc)
find_layer-parent (l ∷ older) id m f e = elim (Bool-cases (l.id == id)) [
  | inl hit ↦ let found : l ≡ m = ground arith in rw (← found) (weaken l.parent_layer_id f.1)
  | inr miss ↦ weaken m.parent_layer_id (find_layer-parent older id m f.2 (ground arith))
]
  where
    weaken : (o : Option String) → parent_exists o older ≡ true → parent_exists o (l ∷ older) ≡ true
    weaken none h = refl
    weaken (some p) h = ground (arith, h)

find_layer-some :
    (ls : List Layer) (id : String)
    → exists_where (is_layer id) ls ≡ true
    → (m : Layer) × (find_layer id ls ≡ some m)
unfolding find_layer find_where exists_where
find_layer-some [] id h = absurd (cc)
find_layer-some (l ∷ older) id h = elim (Bool-cases (l.id == id)) [
  | inl hit ↦ (l, rw hit)
  | inr miss ↦ rw miss (find_layer-some older id (ground arith))
]

pub find_layer_head :
    (l : Layer) (older : List Layer) (id : String)
    → (l.id == id) ≡ true
    → find_layer id (l ∷ older) ≡ some l
unfolding find_layer find_where
find_layer_head l older id hit = rw hit

or_false : (a b : Bool) → (a || b) ≡ false → (a ≡ false) × (b ≡ false)
or_false a b h = ground arith

pub walk_older :
    (fuel : ℕ) (l : Layer) (older : List Layer) (o : Option String)
    → IsForest (l ∷ older)
    → parent_exists o older ≡ true
    → walk fuel (l ∷ older) o ≡ walk fuel older o
unfolding walk
walk_older fuel l older none f h = refl
walk_older zero l older (some id) f h = refl
walk_older (suc fuel) l older (some id) f h =
    let (m, found) = find_layer-some older id h in
    rw (find_layer_older l older id f.0 h, found)
      (ap (cons_walk m)
        (walk_older fuel l older m.parent_layer_id f (find_layer-parent older id m f.2 found)))

pub cons_walk-chain :
    (m : Layer) (w : Walk) (ms : List Layer)
    → cons_walk m w ≡ chain ms
    → (rest : List Layer) × (w ≡ chain rest) × (m ∷ rest ≡ ms)
cons_walk-chain m (chain rest) ms e = (rest, refl, ap (λ w. layers_of w) e)
  where
    layers_of : Walk → List Layer
    layers_of (chain ls) = ls
    layers_of _ = []
cons_walk-chain m missing_layer ms e = absurd (cc)
cons_walk-chain m out_of_fuel ms e = absurd (cc)

walk-suc :
    (fuel : ℕ) (ls : List Layer) (o : Option String) (ms : List Layer)
    → walk fuel ls o ≡ chain ms
    → walk (suc fuel) ls o ≡ chain ms
unfolding walk
walk-suc fuel ls none ms e = e
walk-suc zero ls (some id) ms e = absurd (cc)
walk-suc (suc fuel) ls (some id) ms e = elim (Option-cases (find_layer id ls)) [
  | inl lost ↦ absurd (cc (e, ap (λ o. go_on o (λ l. walk fuel ls l.parent_layer_id)) lost))
  | inr (l, found) ↦
      let (rest, walked, joined) =
        cons_walk-chain l (walk fuel ls l.parent_layer_id) ms
          (sym (ap (λ o. go_on o (λ l. walk fuel ls l.parent_layer_id)) found) ∙ e) in
      rw found (ap (cons_walk l) (walk-suc fuel ls l.parent_layer_id rest walked) ∙ ap chain joined)
]

-- In a forest the walk from the id of a layer, or from none, gives a chain, with as many rounds as
-- there are layers.
pub walk_total :
    (ls : List Layer) (o : Option String)
    → IsForest ls
    → parent_exists o ls ≡ true
    → (ms : List Layer) × (walk (length ls) ls o ≡ chain ms)
unfolding walk exists_where
walk_total ls none f h = ([], refl)
walk_total [] (some id) f h = absurd (cc)
walk_total (l ∷ older) (some id) f h = elim (Bool-cases (l.id == id)) [
  | inl hit ↦
      let (ms, walked) = walk_total older l.parent_layer_id f.2 f.1 in
      (
        l ∷ ms,
        ap (λ o. go_on o (λ m. walk (length older) (l ∷ older) m.parent_layer_id))
              (find_layer_head l older id hit)
            ∙ ap (cons_walk l) (walk_older (length older) l older l.parent_layer_id f f.1 ∙ walked),
      )
  | inr miss ↦
      let inside : exists_where (is_layer id) older ≡ true = ground arith in
      let (ms, walked) = walk_total older (some id) f.2 inside in
      (
        ms,
        walk_older (suc (length older)) l older (some id) f inside
            ∙ walk-suc (length older) older (some id) ms walked,
      )
]

pub find_layer-none :
    (ls : List Layer) (id : String)
    → exists_where (is_layer id) ls ≡ false
    → find_layer id ls ≡ none
unfolding find_layer find_where exists_where
find_layer-none [] id h = refl
find_layer-none (l ∷ older) id h =
    let (miss, rest) = or_false (l.id == id) (exists_where (is_layer id) older) h in
    rw miss (find_layer-none older id rest)

-- In a forest a walk with one round more than there are layers never runs out of rounds, also where it
-- begins at an id that no layer has.
pub walk_ends :
    (ls : List Layer) (o : Option String) → IsForest ls → walk (suc (length ls)) ls o ≢ out_of_fuel
unfolding walk
walk_ends ls none f e = cc
walk_ends ls (some id) f e = elim (Bool-cases (exists_where (is_layer id) ls)) [
  | inl h ↦
      let (ms, walked) = walk_total ls (some id) f h in
      chain_ends ms (sym (walk-suc (length ls) ls (some id) ms walked) ∙ e)
  | inr h ↦ missing_ends (
      sym (ap (λ o. go_on o (λ l. walk (length ls) ls l.parent_layer_id)) (find_layer-none ls id h))
      ∙ e)
]
  where
    chain_ends : (ms : List Layer) → chain ms ≡ out_of_fuel → ⊥
    chain_ends ms h = cc

    missing_ends : missing_layer ≡ out_of_fuel → ⊥
    missing_ends h = cc
