-- ===== src/Names/Refs.antt =====
-- The names of pull requests and of git refs meet the engine's name check.
use mathlib.Core.List.{append_assoc}
use pgoverlay.Base.{
  length-take, ℕ, suc, ◌≤◌, Bool, true, ◌&&◌, ◌||◌, ◌≡◌, refl, ap, ◌⊎◌, inl, inr, [], ◌∷◌, ◌++◌,
  arith, ltb, leb, nat_eq, length, take, length-append, length-take_le, Bytes, is_alnum, is_digit,
  every, Bool-cases,
}
use pgoverlay.Engine.Names.{valid_name}
use pgoverlay.Names.{
  dash, ref_hash_len, pr_infix, sanitize, short_hash, repo_key, repo_prefix, pr_branch_name,
  shortened, ref_branch_name,
}
use pgoverlay.Names.Fragment.{fragment}
use pgoverlay.Names.Trim.{trimmed, trim_right_lem, opening-take, trimmed-fragment, length-trimmed}
use pgoverlay.Names.Valid.{
  fragment-valid_name, sanitize-fragment, fragment-append, fragment_word, every-take, take_start,
}

-- hex.EncodeToString of a SHA-256 sum has 64 lowercase hex digits.
abbrev is_hex : ℕ → Bool
is_hex c = is_digit c || (leb 97 c && leb c 102)

abbrev pub IsHexSum : (Bytes → Bytes) → Type 0
IsHexSum f = (s : Bytes) → (length (f s) ≡ 64) × (every is_hex (f s) ≡ true)

every_hex : (s : Bytes) → every is_hex s ≡ true → every is_alnum s ≡ true
every_hex [] h = refl
every_hex (c ∷ s) h = ground (arith, h, every_hex s)

every_digit : (s : Bytes) → every is_digit s ≡ true → every is_alnum s ≡ true
every_digit [] h = refl
every_digit (c ∷ s) h = ground (arith, h, every_digit s)

module _ (sha256_hex to_lower : Bytes → Bytes) (hex : IsHexSum sha256_hex) where
  length-short_hash : (s : Bytes) (n : ℕ) → n ≤ 64 → length (short_hash sha256_hex to_lower s n) ≡ n
  unfolding short_hash
  length-short_hash s n h = length-take n (sha256_hex s) (omega (arith, h, (hex s).0))

  short_hash-fragment :
      (s : Bytes) (n : ℕ)
      → suc n ≤ 64
      → fragment true (short_hash sha256_hex to_lower s (suc n)) ≡ true
  unfolding short_hash
  short_hash-fragment s n h =
      fragment_word n (take (suc n) (sha256_hex s))
        (length-take (suc n) (sha256_hex s) (omega (arith, h, (hex s).0)))
        (every-take is_alnum (suc n) (sha256_hex s) (every_hex (sha256_hex s) (hex s).1))

  abbrev key : Bytes → Bytes
  key repo = repo_key sha256_hex to_lower repo

  length-key : (repo : Bytes) → length (key repo) ≡ 6
  unfolding repo_key
  length-key repo = length-short_hash (to_lower repo) 6 (omega arith)

  -- the prefix "gh-<key>-" in front of a name
  repo_prefix_text :
      (repo s : Bytes)
      → repo_prefix sha256_hex to_lower repo ++ s ≡ 103 ∷ 104 ∷ dash ∷ (key repo ++ dash ∷ s)
  unfolding repo_prefix
  repo_prefix_text repo s = ap (λ r. 103 ∷ 104 ∷ dash ∷ r) (append_assoc (key repo) (dash ∷ []) s)

  length-repo_prefix : (repo : Bytes) → length (repo_prefix sha256_hex to_lower repo) ≡ 10
  unfolding repo_prefix
  length-repo_prefix repo = omega (arith, length-append (key repo) (dash ∷ []), length-key repo)

  prefixed-valid_name :
      (repo s : Bytes)
      → fragment true s ≡ true
      → length s ≤ 31
      → valid_name (repo_prefix sha256_hex to_lower repo ++ s) ≡ true
  unfolding fragment repo_key
  prefixed-valid_name repo s h n =
      fragment-valid_name (repo_prefix sha256_hex to_lower repo ++ s)
        (rw (repo_prefix_text repo s) (
          fragment-append true (key repo) s (short_hash-fragment (to_lower repo) 5 (omega arith))
            h))
        (omega (
          arith,
          length-append (repo_prefix sha256_hex to_lower repo) s,
          length-repo_prefix repo,
          n,
        ))

  abbrev hash : Bytes → Bytes
  hash ref = short_hash sha256_hex to_lower ref ref_hash_len

  -- the first bytes of a long ref, trimmed
  abbrev stem : Bytes → Bytes
  stem s = trimmed (take 24 s)

  stem-fragment : (s : Bytes) → fragment true s ≡ true → fragment true (stem s) ≡ true
  stem-fragment s h = elim (trimmed-fragment true (take 24 s) (opening-take 24 true s h)) [
    | inl e ↦ absurd (take_start 23 s h e)
    | inr e ↦ e
  ]

  shortened_fits :
      (ref s : Bytes)
      → fragment true s ≡ true
      → (fragment true (shortened sha256_hex to_lower ref 31 s) ≡ true)
        × (length (shortened sha256_hex to_lower ref 31 s) ≤ 31)
  unfolding shortened
  shortened_fits ref s h = elim (Bool-cases (ltb 31 (length s))) [
    | inr e ↦ rw e (h, ground (arith, e))
    | inl e ↦
        rw (e, trim_right_lem (take 24 s))
          (
            fragment-append true (stem s) (hash ref) (stem-fragment s h)
                (short_hash-fragment ref 5 (omega arith)),
            omega (
              arith,
              length-append (stem s) (dash ∷ hash ref),
              length-short_hash ref 6 (omega arith),
              length-trimmed (take 24 s),
              length-take_le 24 s,
            ),
          )
  ]

  -- RefBranchName gives the empty text or a name that the engine accepts, where the hash texts are those
  -- of SHA-256 sums.
  pub ref_branch_name-valid_name :
      (repo ref : Bytes)
      → (ref_branch_name sha256_hex to_lower repo ref ≡ [])
        ⊎ (valid_name (ref_branch_name sha256_hex to_lower repo ref) ≡ true)
  unfolding ref_branch_name
  ref_branch_name-valid_name repo ref = elim (Bool-cases (nat_eq (length (sanitize ref 0)) 0)) [
    | inl e ↦ inl (rw e refl)
    | inr e ↦
        let fits = shortened_fits ref (sanitize ref 0) (sanitize-fragment ref e) in
        inr (
          rw (e, length-repo_prefix repo)
            (prefixed-valid_name repo (shortened sha256_hex to_lower ref 31 (sanitize ref 0)) fits.0
              fits.1))
  ]

  -- PRBranchName gives a name that the engine accepts, for a number of 1 to 28 decimal digits, where
  -- the hash texts are those of SHA-256 sums.
  pub pr_branch_name-valid_name :
      (repo pr : Bytes)
      → every is_digit pr ≡ true
      → 1 ≤ length pr
      → length pr ≤ 28
      → valid_name (pr_branch_name sha256_hex to_lower repo pr) ≡ true
  unfolding pr_branch_name fragment
  pr_branch_name-valid_name repo [] d n m = absurd (omega (arith, n))
  pr_branch_name-valid_name repo (c ∷ pr) d n m =
      prefixed-valid_name repo (pr_infix ++ c ∷ pr)
        (fragment_word (length pr) (c ∷ pr) refl (every_digit (c ∷ pr) d)) (omega (arith, m))
