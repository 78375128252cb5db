-- ===== src/Names/Valid.antt =====
-- The derived names meet the engine's name check.
use mathlib.Core.Path.{subst}
use pgoverlay.Base.{
  ℕ, zero, suc, ◌≤◌, Bool, true, false, ◌&&◌, ◌≡◌, refl, sym, ap, ◌⊎◌, inl, inr, [], ◌∷◌, ◌++◌,
  reverse, arith, ltb, nat_eq, length, take, length-take_le, Bytes, is_alnum, every, Bool-cases,
}
use pgoverlay.Engine.Names.{name_byte, valid_name}
use pgoverlay.Names.{dash, max_branch_name_len, sanitize_loop, cut, sanitize, sanitize_ref}
use pgoverlay.Names.Fragment.{fragment, written, loop-written, written_start}
use pgoverlay.Names.Trim.{
  put-alnum, trimmed, trim_right_lem, opening-take, trimmed-fragment, length-trimmed,
}

every-fragment : (must : Bool) (s : Bytes) → fragment must s ≡ true → every name_byte s ≡ true
unfolding fragment
every-fragment must [] h = refl
every-fragment must (c ∷ rest) h =
    ground (arith, h, every-fragment false rest, every-fragment true rest)

pub fragment-valid_name :
    (s : Bytes) → fragment true s ≡ true → length s ≤ max_branch_name_len → valid_name s ≡ true
unfolding fragment valid_name
fragment-valid_name [] h n = absurd (ground arith)
fragment-valid_name (c ∷ rest) h n = ground (arith, h, n, every-fragment false rest)

sanitize_written : (ref : Bytes) → reverse (sanitize_loop [] false ref) ≡ written false false ref
sanitize_written ref = loop-written [] false ref

cut-fragment :
    (n : ℕ) (s : Bytes)
    → (s ≡ []) ⊎ (fragment true s ≡ true)
    → (cut n s ≡ []) ⊎ (fragment true (cut n s) ≡ true)
unfolding cut
cut-fragment n s h = elim (Bool-cases (ltb 0 n && ltb n (length s))) [
  | inr e ↦ rw e h
  | inl e ↦
      rw (e, trim_right_lem (take n s))
        (elim h [
          | inl none_left ↦ absurd (ground (arith, e, ap (λ r. length r) none_left))
          | inr there ↦ trimmed-fragment true (take n s) (opening-take n true s there)
        ])
]

length-cut : (n : ℕ) (s : Bytes) → length (cut (suc n) s) ≤ suc n
unfolding cut
length-cut n s = elim (Bool-cases (ltb 0 (suc n) && ltb (suc n) (length s))) [
  | inr e ↦ rw e (ground (arith, e))
  | inl e ↦
      rw (e, trim_right_lem (take (suc n) s))
        (omega (arith, length-trimmed (take (suc n) s), length-take_le (suc n) s))
]

-- the text that SanitizeRef cuts
abbrev uncut : Bytes → Bytes
uncut ref = reverse (sanitize_loop [] false ref)

uncut_start : (ref : Bytes) → (uncut ref ≡ []) ⊎ (fragment true (uncut ref) ≡ true)
uncut_start ref =
    subst (λ s. (s ≡ []) ⊎ (fragment true s ≡ true)) (sym (sanitize_written ref))
      (written_start false ref)

-- SanitizeRef gives the empty text or a name that the engine accepts.
pub sanitize_ref-valid_name :
    (ref : Bytes) → (sanitize_ref ref ≡ []) ⊎ (valid_name (sanitize_ref ref) ≡ true)
unfolding sanitize_ref sanitize
sanitize_ref-valid_name ref =
    elim (cut-fragment max_branch_name_len (uncut ref) (uncut_start ref)) [
      | inl e ↦ inl e
      | inr e ↦
          inr (
            fragment-valid_name (cut max_branch_name_len (uncut ref)) e (length-cut 40 (uncut ref)))
    ]

pub sanitize-fragment :
    (ref : Bytes)
    → nat_eq (length (sanitize ref 0)) 0 ≡ false
    → fragment true (sanitize ref 0) ≡ true
unfolding sanitize
sanitize-fragment ref h = elim (cut-fragment 0 (uncut ref) (uncut_start ref)) [
  | inl e ↦ absurd (ground (arith, h, ap (λ r. length r) e))
  | inr e ↦ e
]

-- Two names with a dash between them
pub fragment-append :
    (must : Bool) (a b : Bytes)
    → fragment must a ≡ true
    → fragment true b ≡ true
    → fragment must (a ++ dash ∷ b) ≡ true
unfolding fragment
fragment-append must [] b h k = ground (arith, h, k)
fragment-append must (c ∷ a) b h k =
    ground (arith, h, k, fragment-append false a b, fragment-append true a b)

fragment_alnum : (s : Bytes) → every is_alnum s ≡ true → fragment false s ≡ true
unfolding fragment
fragment_alnum [] h = refl
fragment_alnum (c ∷ s) h = ground (arith, h, fragment_alnum s)

pub fragment_word :
    (n : ℕ) (s : Bytes) → length s ≡ suc n → every is_alnum s ≡ true → fragment true s ≡ true
unfolding fragment
fragment_word n [] e h = absurd (omega (arith, e))
fragment_word n (c ∷ s) e h = ground (arith, h, fragment_alnum s)

pub every-take : (q : ℕ → Bool) (n : ℕ) (s : Bytes) → every q s ≡ true → every q (take n s) ≡ true
every-take q zero s h = refl
every-take q (suc n) [] h = refl
every-take q (suc n) (c ∷ s) h = ground (arith, h, every-take q n s)

pub take_start : (n : ℕ) (s : Bytes) → fragment true s ≡ true → (trimmed (take (suc n) s) ≡ []) → ⊥
unfolding fragment trimmed
take_start n [] h e = ground (arith, h)
take_start n (c ∷ s) h e = put-alnum c (trimmed (take n s)) (ground (arith, h)) e
