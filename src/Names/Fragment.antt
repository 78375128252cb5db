-- ===== src/Names/Fragment.antt =====
-- What sanitize writes: runs of lowercase letters and digits, one dash between two of them.
use mathlib.Core.List.{reverse-cons, append_assoc, append-nil}
use pgoverlay.Base.{
  ℕ, Bool, true, false, not, ◌&&◌, ◌≡◌, refl, sym, ◌∙◌, ◌⊎◌, inl, inr, [], ◌∷◌, ◌++◌, reverse,
  arith, nat_eq, if◌then◌else◌, Bytes, is_alnum, Bool-cases,
}
use pgoverlay.Names.{dash, fold_case, some_written, sanitize_loop}

-- `must` says that a letter or digit has to come next.
unfoldable pub fragment : Bool → Bytes → Bool
fragment must [] = not must
fragment must (c ∷ rest) =
    if is_alnum c then fragment false rest else (not must && (nat_eq c dash && fragment true rest))

-- The output of the loop in the order in which it is written.
unfoldable pub written : Bool → Bool → Bytes → Bytes
written started due [] = []
written started due (c ∷ rest) =
    let here = fold_case c ∷ written true false rest in
    let skipped = written started true rest in
    if is_alnum (fold_case c) then (if due && started then dash ∷ here else here) else skipped

one_more :
    (out : Bytes) (x : ℕ) (rest : Bytes) → reverse (x ∷ out) ++ rest ≡ reverse out ++ x ∷ rest
one_more out x rest = rw (reverse-cons, append_assoc) refl

two_more :
    (out : Bytes) (x : ℕ) (rest : Bytes)
    → reverse (x ∷ dash ∷ out) ++ rest ≡ reverse out ++ dash ∷ x ∷ rest
two_more out x rest = one_more (dash ∷ out) x rest ∙ one_more out dash (x ∷ rest)

pub loop-written :
    (out : Bytes) (due : Bool) (s : Bytes)
    → reverse (sanitize_loop out due s) ≡ reverse out ++ written (some_written out) due s
unfolding sanitize_loop written
loop-written out due [] = sym (append-nil (reverse out))
loop-written out due (c ∷ rest) = elim (Bool-cases (is_alnum (fold_case c))) [
  | inr skip ↦ rw skip (loop-written out true rest)
  | inl keep ↦ elim (Bool-cases (due && some_written out)) [
    | inl e ↦
        rw (keep, e)
          (loop-written (fold_case c ∷ dash ∷ out) false rest
            ∙ two_more out (fold_case c) (written true false rest))
    | inr e ↦
        rw (keep, e)
          (loop-written (fold_case c ∷ out) false rest
            ∙ one_more out (fold_case c) (written true false rest))
  ]
]

pub fragment-written : (due : Bool) (s : Bytes) → fragment false (written true due s) ≡ true
unfolding written fragment
fragment-written due [] = refl
fragment-written due (c ∷ rest) = elim (Bool-cases (is_alnum (fold_case c))) [
  | inr skip ↦ rw skip (fragment-written true rest)
  | inl keep ↦ rw keep (ground (arith, keep, fragment-written false rest))
]

pub written_start :
    (due : Bool) (s : Bytes)
    → (written false due s ≡ []) ⊎ (fragment true (written false due s) ≡ true)
unfolding written fragment
written_start due [] = inl refl
written_start due (c ∷ rest) = elim (Bool-cases (is_alnum (fold_case c))) [
  | inr skip ↦ rw skip (written_start true rest)
  | inl keep ↦ rw keep (inr (ground (arith, keep, fragment-written false rest)))
]
