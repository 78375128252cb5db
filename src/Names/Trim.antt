-- ===== src/Names/Trim.antt =====
-- Trailing dashes: strings.TrimRight(s, "-") read from the front, and what it leaves of a cut name.
use mathlib.Core.List.{reverse-cons, reverse-append}
use pgoverlay.Base.{
  ℕ, zero, suc, ◌≤◌, Bool, true, false, not, ◌&&◌, ◌≡◌, refl, sym, ap, ◌∙◌, ◌⊎◌, inl, inr, [], ◌∷◌,
  ◌++◌, reverse, arith, nat_eq, if◌then◌else◌, length, take, Bytes, is_alnum, Bool-cases,
}
use pgoverlay.Names.{dash, trim_dashes, trim_right}
use pgoverlay.Names.Fragment.{fragment}

-- a byte in front of text that is trimmed
abbrev put : ℕ → Bytes → Bytes
put c [] = if nat_eq c dash then [] else c ∷ []
put c (x ∷ xs) = c ∷ x ∷ xs

unfoldable pub trimmed : Bytes → Bytes
trimmed [] = []
trimmed (c ∷ rest) = put c (trimmed rest)

abbrev put_last : ℕ → Bytes → Bytes
put_last c [] = if nat_eq c dash then [] else c ∷ []
put_last c (x ∷ xs) = (x ∷ xs) ++ c ∷ []

trim_dashes_last : (xs : Bytes) (c : ℕ) → trim_dashes (xs ++ c ∷ []) ≡ put_last c (trim_dashes xs)
unfolding trim_dashes
trim_dashes_last [] c = refl
trim_dashes_last (x ∷ xs) c = elim (Bool-cases (nat_eq x dash)) [
  | inl e ↦ rw e (trim_dashes_last xs c)
  | inr e ↦ rw e refl
]

put_before_last : (c : ℕ) (r : Bytes) (x : ℕ) → put c (r ++ x ∷ []) ≡ c ∷ (r ++ x ∷ [])
put_before_last c [] x = refl
put_before_last c (y ∷ ys) x = refl

reverse-put_last : (c : ℕ) (xs : Bytes) → reverse (put_last c xs) ≡ put c (reverse xs)
reverse-put_last c [] = elim (Bool-cases (nat_eq c dash)) [ inl e ↦ rw e refl | inr e ↦ rw e refl ]
reverse-put_last c (x ∷ xs) =
    reverse-append (x ∷ xs) (c ∷ [])
    ∙ ap (λ r. c ∷ r) (reverse-cons x xs)
    ∙ sym (put_before_last c (reverse xs) x)
    ∙ ap (put c) (sym (reverse-cons x xs))

pub put-alnum : (c : ℕ) (r : Bytes) → is_alnum c ≡ true → put c r ≡ [] → ⊥
put-alnum c [] h e = ground (arith, h, ap (λ s. length s) e)
put-alnum c (x ∷ xs) h e = cc

pub trim_right_lem : (s : Bytes) → trim_right s ≡ trimmed s
unfolding trim_right trimmed
trim_right_lem [] = refl
trim_right_lem (c ∷ rest) =
    ap (λ r. reverse (trim_dashes r)) (reverse-cons c rest)
    ∙ ap reverse (trim_dashes_last (reverse rest) c)
    ∙ reverse-put_last c (trim_dashes (reverse rest))
    ∙ ap (put c) (trim_right_lem rest)

-- A name that may end anywhere
unfoldable pub opening : Bool → Bytes → Bool
opening must [] = true
opening must (c ∷ rest) =
    if is_alnum c then opening false rest else (not must && (nat_eq c dash && opening true rest))

pub opening-take :
    (n : ℕ) (must : Bool) (s : Bytes) → fragment must s ≡ true → opening must (take n s) ≡ true
unfolding fragment opening
opening-take zero must s h = refl
opening-take (suc n) must [] h = refl
opening-take (suc n) must (c ∷ rest) h = elim (Bool-cases (is_alnum c)) [
  | inl e ↦ rw e (opening-take n false rest (ground (arith, e, h)))
  | inr e ↦ ground (arith, e, h, opening-take n true rest)
]

put-fragment :
    (must : Bool) (c : ℕ) (r : Bytes)
    → is_alnum c ≡ true
    → (r ≡ []) ⊎ (fragment false r ≡ true)
    → fragment must (put c r) ≡ true
unfolding fragment
put-fragment must c [] e h = ground arith
put-fragment must c (x ∷ xs) e (inl h) = absurd (cc)
put-fragment must c (x ∷ xs) e (inr h) = rw e h

put-dash :
    (must : Bool) (c : ℕ) (r : Bytes)
    → must ≡ false
    → nat_eq c dash ≡ true
    → (r ≡ []) ⊎ (fragment true r ≡ true)
    → (put c r ≡ []) ⊎ (fragment must (put c r) ≡ true)
unfolding fragment
put-dash must c [] m e h = inl (rw e refl)
put-dash must c (x ∷ xs) m e (inl h) = absurd (cc)
put-dash must c (x ∷ xs) m e (inr h) = inr (ground (arith, m, e, h))

length-put : (c : ℕ) (r : Bytes) (n : ℕ) → length r ≤ n → length (put c r) ≤ suc n
length-put c [] n h = ground arith
length-put c (x ∷ xs) n h = omega (arith, h)

pub trimmed-fragment :
    (must : Bool) (s : Bytes)
    → opening must s ≡ true
    → (trimmed s ≡ []) ⊎ (fragment must (trimmed s) ≡ true)
unfolding trimmed opening
trimmed-fragment must [] h = inl refl
trimmed-fragment must (c ∷ rest) h = elim (Bool-cases (is_alnum c)) [
  | inl e ↦
      inr
        (put-fragment must c (trimmed rest) e (trimmed-fragment false rest (ground (arith, e, h))))
  | inr e ↦
      put-dash must c (trimmed rest) (ground (arith, e, h)) (ground (arith, e, h))
        (trimmed-fragment true rest (ground (arith, e, h)))
]

pub length-trimmed : (s : Bytes) → length (trimmed s) ≤ length s
unfolding trimmed
length-trimmed [] = omega arith
length-trimmed (c ∷ rest) = length-put c (trimmed rest) (length rest) (length-trimmed rest)
