-- ===== src/Base/TableLaws.antt =====
-- What an UPDATE, a DELETE and an INSERT keep of the counts and of the facts about all rows.
use Prim.Native.Nat.{◌≤◌, ◌<◌}
use mathlib.Core.Path.{◌≡◌, refl}
use mathlib.Core.Logic.{inl, inr}
use mathlib.Core.Bool.{Bool, true, false, ◌&&◌}
use mathlib.Core.Option.{some}
use mathlib.Core.List.{List, [], ◌∷◌}
use native.Mathlib.Omega.{arith}
use pgoverlay.Base.Tests.{if◌then◌else◌, Bool-cases}
use pgoverlay.Base.Lists.{All}
use pgoverlay.Base.Tables.{update_where, count_where, delete_where, find_where, exists_where}

module _ {ℓ} {A : Type ℓ} where
  -- An UPDATE that turns no row outside `p` into one of `p` adds none to the count.
  pub count-update-le :
      (p q : A → Bool) (f : A → A)
      → (xs : List A) → All (λ x. q x ≡ true → p (f x) ≡ true → p x ≡ true) xs
      → count_where p (update_where q f xs) ≤ count_where p xs
  unfolding count_where update_where
  count-update-le p q f [] h = omega arith
  count-update-le p q f (x ∷ xs) h = ground (arith, h.0, count-update-le p q f xs h.1)

  pub count-delete-le :
      (p q : A → Bool) (xs : List A) → count_where p (delete_where q xs) ≤ count_where p xs
  unfolding count_where delete_where
  count-delete-le p q [] = omega arith
  count-delete-le p q (x ∷ xs) = ground (arith, count-delete-le p q xs)

  pub All-update {κ} :
      (P Q : A → Type κ) (q : A → Bool) (f : A → A)
      → ((x : A) → P x → q x ≡ true → Q (f x))
      → ((x : A) → P x → q x ≡ false → Q x)
      → (xs : List A) → All P xs
      → All Q (update_where q f xs)
  unfolding update_where
  All-update P Q q f hit miss [] h = tt
  All-update P Q q f hit miss (x ∷ xs) h = elim (Bool-cases (q x)) [
    | inl e ↦ (rw e (hit x h.0 e), All-update P Q q f hit miss xs h.1)
    | inr e ↦ (rw e (miss x h.0 e), All-update P Q q f hit miss xs h.1)
  ]

  pub All-delete {κ} :
      (P Q : A → Type κ) (q : A → Bool)
      → ((x : A) → P x → q x ≡ false → Q x)
      → (xs : List A) → All P xs
      → All Q (delete_where q xs)
  unfolding delete_where
  All-delete P Q q keep [] h = tt
  All-delete P Q q keep (x ∷ xs) h = elim (Bool-cases (q x)) [
    | inl e ↦ rw e (All-delete P Q q keep xs h.1)
    | inr e ↦ rw e (keep x h.0 e, All-delete P Q q keep xs h.1)
  ]

  pub All-both {κ} :
      (P Q : A → Type κ) (xs : List A) → All P xs → All Q xs → All (λ x. P x × Q x) xs
  All-both P Q [] h k = tt
  All-both P Q (x ∷ xs) h k = ((h.0, k.0), All-both P Q xs h.1 k.1)

  pub All-of_find {κ} :
      (P : A → Type κ) (p : A → Bool) (xs : List A) (a : A)
      → find_where p xs ≡ some a
      → All P xs
      → P a × (p a ≡ true)
  unfolding find_where
  All-of_find P p [] a e h = absurd (cc)
  All-of_find P p (x ∷ xs) a e h = elim (Bool-cases (p x)) [
    | inl hit ↦ let same : x ≡ a = ground arith in rw (← same) (h.0, hit)
    | inr miss ↦ All-of_find P p xs a (ground arith) h.1
  ]

  All-of_none :
      (p q : A → Bool) (xs : List A) → count_where p xs ≡ 0 → All (λ x. p x ≡ true → q x ≡ true) xs
  unfolding count_where
  All-of_none p q [] zero_rows = tt
  All-of_none p q (x ∷ xs) zero_rows =
      (λ h. absurd (ground arith), All-of_none p q xs (ground arith))

  pub count-le_of_sub :
      (p q : A → Bool) (xs : List A)
      → ((x : A) → q x ≡ true → p x ≡ true)
      → count_where q xs ≤ count_where p xs
  unfolding count_where
  count-le_of_sub p q [] sub = omega arith
  count-le_of_sub p q (x ∷ xs) sub = ground (arith, sub x, count-le_of_sub p q xs sub)

  -- Where at most one row is in `p` and one row is in both, each row of `p` is in `q`.
  pub All-of_one :
      (p q : A → Bool) (xs : List A)
      → ((x : A) → q x ≡ true → p x ≡ true)
      → count_where p xs ≤ 1
      → count_where q xs ≡ 1
      → All (λ x. p x ≡ true → q x ≡ true) xs
  unfolding count_where
  All-of_one p q [] sub at_most one = tt
  All-of_one p q (x ∷ xs) sub at_most one = elim (Bool-cases (q x)) [
    | inl hit ↦ (λ _. hit, All-of_none p q xs (ground (arith, sub x)))
    | inr miss ↦
        let inside : 0 < count_where p xs = ground (arith, count-le_of_sub p q xs sub) in
        (λ h. absurd (ground arith), All-of_one p q xs sub (ground arith) (ground arith))
  ]

  pub exists-delete :
      (p q : A → Bool) (xs : List A)
      → ((x : A) → p x ≡ true → q x ≡ false)
      → exists_where p xs ≡ true
      → exists_where p (delete_where q xs) ≡ true
  unfolding exists_where delete_where
  exists-delete p q [] apart h = h
  exists-delete p q (x ∷ xs) apart h = ground (arith, apart x, exists-delete p q xs apart)

  pub exists-update :
      (p q : A → Bool) (f : A → A) (xs : List A)
      → ((x : A) → p (f x) ≡ p x)
      → exists_where p (update_where q f xs) ≡ exists_where p xs
  unfolding exists_where update_where
  exists-update p q f [] same = refl
  exists-update p q f (x ∷ xs) same = ground (arith, same x, exists-update p q f xs same)

  pub count_of_not_exists :
      (p : A → Bool) (xs : List A) → exists_where p xs ≡ false → count_where p xs ≡ 0
  unfolding exists_where count_where
  count_of_not_exists p [] h = refl
  count_of_not_exists p (x ∷ xs) h = ground (arith, count_of_not_exists p xs)

  -- A row that is counted is found.
  pub find_of_count :
      (p : A → Bool) (xs : List A) → count_where p xs ≡ 1 → (a : A) × (find_where p xs ≡ some a)
  unfolding count_where find_where
  find_of_count p [] h = absurd (omega (arith, h))
  find_of_count p (x ∷ xs) h = elim (Bool-cases (p x)) [
    | inl hit ↦ (x, rw hit)
    | inr miss ↦ rw miss (find_of_count p xs (ground arith))
  ]

  pub All-of_not_exists :
      (p : A → Bool) (xs : List A) → exists_where p xs ≡ false → All (λ x. p x ≡ false) xs
  unfolding exists_where
  All-of_not_exists p [] h = tt
  All-of_not_exists p (x ∷ xs) h = (ground arith, All-of_not_exists p xs (ground arith))

  pub exists-delete_apart :
      (p q : A → Bool) (xs : List A)
      → exists_where p xs ≡ true
      → exists_where (λ x. p x && q x) xs ≡ false
      → exists_where p (delete_where q xs) ≡ true
  unfolding exists_where delete_where
  exists-delete_apart p q [] h apart = h
  exists-delete_apart p q (x ∷ xs) h apart = ground (arith, exists-delete_apart p q xs)

  -- An UPDATE that leaves the test of a SELECT alone
  pub find-update :
      (p q : A → Bool) (f : A → A) (xs : List A) (a : A)
      → ((x : A) → p (f x) ≡ p x)
      → find_where p xs ≡ some a
      → find_where p (update_where q f xs) ≡ some (if q a then f a else a)
  unfolding find_where update_where
  find-update p q f [] a same h = absurd (cc)
  find-update p q f (x ∷ xs) a same h = elim (Bool-cases (p x)) [
    | inl hit ↦ let e : x ≡ a = ground arith in rw (← e) (ground (arith, same x))
    | inr miss ↦
        let rest = find-update p q f xs a same (ground arith) in ground (arith, same x, rest)
  ]

  pub exists_of_find :
      (p : A → Bool) (xs : List A) (a : A) → find_where p xs ≡ some a → exists_where p xs ≡ true
  unfolding find_where exists_where
  exists_of_find p [] a h = absurd (cc)
  exists_of_find p (x ∷ xs) a h = ground (arith, exists_of_find p xs a)

  pub find_where_holds :
      (p : A → Bool) (xs : List A) (a : A) → find_where p xs ≡ some a → p a ≡ true
  unfolding find_where
  find_where_holds p [] a h = absurd (cc)
  find_where_holds p (x ∷ xs) a h = elim (Bool-cases (p x)) [
    | inl hit ↦ let e : x ≡ a = ground arith in rw (← e) hit
    | inr miss ↦ find_where_holds p xs a (ground arith)
  ]
