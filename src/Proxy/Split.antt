-- ===== src/Proxy/Split.antt =====
-- splitDatabase takes the part after the last '@'.
use pgoverlay.Base.{
  ℕ, suc, ◌+◌, Bool, true, false, not, ◌≡◌, refl, sym, ap, ◌∙◌, inl, inr, Option, none, some, [],
  ◌∷◌, ◌++◌, arith, nat_eq, nat_eq_iff, if◌then◌else◌, every, length, drop, take-append, Bytes,
  Bool-cases,
}
use pgoverlay.Proxy.Startup.{at_sign, last_index, later_or, split_at, split_database}

abbrev pub not_at : ℕ → Bool
not_at c = not (nat_eq c at_sign)

abbrev pub IsLast : Bytes → Option (Bytes × Bytes) → Type 0
IsLast db none = every not_at db ≡ true
IsLast db (some (d, b)) = (d ++ at_sign ∷ b ≡ db) × (every not_at b ≡ true)

split-cons :
    (c : ℕ) (rest : Bytes) (o : Option ℕ)
    → IsLast rest (split_at rest o)
    → IsLast
        (c ∷ rest)
        (split_at (c ∷ rest) (later_or o (if nat_eq c at_sign then some 0 else none)))
split-cons c rest (some i) h =
    let one : suc i + 1 ≡ suc (i + 1) = omega arith in
    rw (ap (λ k. drop k (c ∷ rest)) one) (ap (λ r. c ∷ r) h.0, h.1)
split-cons c rest none h = elim (Bool-cases (nat_eq c at_sign)) [
  | inl e ↦ rw e (ap (λ x. x ∷ rest) (sym ((nat_eq_iff c at_sign).0 e)), h)
  | inr e ↦ rw e (ground (arith, e, h))
]

-- A name without '@' is refused; any other is split at its last '@', and the two parts with an '@'
-- between them are the name again.
pub split_database-IsLast : (db : Bytes) → IsLast db (split_database db)
unfolding split_database last_index
split_database-IsLast [] = refl
split_database-IsLast (c ∷ rest) = split-cons c rest (last_index rest) (split_database-IsLast rest)

last_index-none : (b : Bytes) → every not_at b ≡ true → last_index b ≡ none
unfolding last_index
last_index-none [] h = refl
last_index-none (c ∷ b) h =
    let here : nat_eq c at_sign ≡ false = ground (arith, h) in
    rw (last_index-none b (ground (arith, h)), here) refl

last_index-append :
    (d b : Bytes) → every not_at b ≡ true → last_index (d ++ at_sign ∷ b) ≡ some (length d)
unfolding last_index
last_index-append [] b h = rw (last_index-none b h) refl
last_index-append (c ∷ d) b h = rw (last_index-append d b h) refl

drop-append_one : (d : Bytes) (x : ℕ) (b : Bytes) → drop (length d + 1) (d ++ x ∷ b) ≡ b
drop-append_one [] x b = refl
drop-append_one (c ∷ d) x b =
    let one : suc (length d) + 1 ≡ suc (length d + 1) = omega arith in
    ap (λ k. drop k (c ∷ d ++ x ∷ b)) one ∙ drop-append_one d x b

-- A database name, whatever it holds, and a branch name without '@' come out of the text that a client
-- writes for them.
pub split_database-append :
    (d b : Bytes) → every not_at b ≡ true → split_database (d ++ at_sign ∷ b) ≡ some (d, b)
unfolding split_database last_index
split_database-append d b h =
    rw (last_index-append d b h)
      (rw (take-append d (at_sign ∷ b), drop-append_one d at_sign b) refl)
