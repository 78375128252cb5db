-- ===== src/Secrets/Rotation.antt =====
-- The keys that a box holds: the primary key under its id, and each previous key under its own.
use mathlib.Core.Path.{subst}
use pgoverlay.Base.{
  true, false, ◌≡◌, refl, sym, ap, ◌∙◌, inl, inr, none, some, List, [], ◌∷◌, arith, nat_eq, length,
  All, Bytes, same_bytes, same_bytes_refl, same_bytes_sound, Bool-cases, Option-cases, ◌⊎◌,
}
use pgoverlay.Secrets.Box.{Cipher, key_at, add_absent, is_key, key_id, add_previous}

add_absent_keeps :
    (id i key k : Bytes) (keys : List (Bytes × Bytes))
    → key_at id keys ≡ some k
    → key_at id (add_absent i key keys (key_at i keys)) ≡ some k
unfolding key_at
add_absent_keeps id i key k keys held = elim (Option-cases (key_at i keys)) [
  | inr (_, there) ↦ rw there held
  | inl absent ↦ elim (Bool-cases (same_bytes i id)) [
    | inr e ↦ rw (absent, e) held
    | inl e ↦
        absurd (ground (arith, held, absent, ap (λ j. key_at j keys) (same_bytes_sound i id e)))
  ]
]

add_absent_holds :
    (i key : Bytes) (keys : List (Bytes × Bytes))
    → (k : Bytes) × (key_at i (add_absent i key keys (key_at i keys)) ≡ some k)
unfolding key_at
add_absent_holds i key keys = elim (Option-cases (key_at i keys)) [
  | inr (k, there) ↦ (k, rw there there)
  | inl absent ↦ (key, rw (absent, same_bytes_refl i) refl)
]

pub some-injective : {A : Type 0} (a b : A) → some a ≡ some b → a ≡ b
some-injective a b e = ground (arith, e)

module _ (cipher : Cipher) where
  abbrev with_key : Bytes → List (Bytes × Bytes) → List (Bytes × Bytes)
  with_key key keys = add_absent (key_id cipher key) key keys (key_at (key_id cipher key) keys)

  -- one round of the loop over the previous keys
  add_previous_round :
      (key : Bytes) (previous : List Bytes) (keys keys' : List (Bytes × Bytes))
      → add_previous cipher (key ∷ previous) keys ≡ some keys'
      → (add_previous cipher previous keys ≡ some keys') × (nat_eq (length key) 0 ≡ true)
        ⊎ (add_previous cipher previous (with_key key keys) ≡ some keys')
  unfolding add_previous
  add_previous_round key previous keys keys' e = elim (Bool-cases (nat_eq (length key) 0)) [
    | inl z ↦
        let round : add_previous cipher (key ∷ previous) keys ≡ add_previous cipher previous keys =
          rw z refl in
        inl (sym round ∙ e, z)
    | inr z ↦ elim (Bool-cases (is_key key)) [
      | inr bad ↦
          let round : add_previous cipher (key ∷ previous) keys ≡ none = rw (z, bad) refl in
          absurd (cc (round, e))
      | inl good ↦
          let round : add_previous cipher (key ∷ previous) keys
              ≡ add_previous cipher previous (with_key key keys) =
            rw (z, good) refl in
          inr (sym round ∙ e)
    ]
  ]

  pub add_previous_keeps :
      (previous : List Bytes) (id k : Bytes) (keys keys' : List (Bytes × Bytes))
      → key_at id keys ≡ some k
      → add_previous cipher previous keys ≡ some keys'
      → key_at id keys' ≡ some k
  unfolding add_previous
  add_previous_keeps [] id k keys keys' held e =
      subst (λ ks. key_at id ks ≡ some k) (some-injective keys keys' e) held
  add_previous_keeps (key ∷ previous) id k keys keys' held e =
      elim (add_previous_round key previous keys keys' e) [
        | inl (rest, _) ↦ add_previous_keeps previous id k keys keys' held rest
        | inr rest ↦
            add_previous_keeps previous id k (with_key key keys) keys'
              (add_absent_keeps id (key_id cipher key) key k keys held) rest
      ]

  module _ (key : Bytes) where
    -- The id of the key names no other key.
    abbrev pub IsAlone : Bytes → Type 0
    IsAlone other = key_id cipher other ≡ key_id cipher key → other ≡ key

    abbrev pub NamesOnly : List (Bytes × Bytes) → Type 0
    NamesOnly keys = (k : Bytes) → key_at (key_id cipher key) keys ≡ some k → k ≡ key

    abbrev pub Holds : List Bytes → Type 0
    Holds [] = ⊥
    Holds (k ∷ ks) = (k ≡ key) ⊎ Holds ks

    with_key-NamesOnly :
        (other : Bytes) (keys : List (Bytes × Bytes))
        → IsAlone other
        → NamesOnly keys
        → NamesOnly (with_key other keys)
    unfolding key_at
    with_key-NamesOnly other keys alone only k =
        elim (Option-cases (key_at (key_id cipher other) keys)) [
          | inr (_, there) ↦ rw there (only k)
          | inl absent ↦ elim (Bool-cases (same_bytes (key_id cipher other) (key_id cipher key))) [
            | inr e ↦ rw (absent, e) (only k)
            | inl e ↦
                rw (absent, e)
                  (λ same.
                    sym (some-injective other k same)
                    ∙ alone (same_bytes_sound (key_id cipher other) (key_id cipher key) e))
          ]
        ]

    pub add_previous-Holds :
        (previous : List Bytes) (keys keys' : List (Bytes × Bytes))
        → All IsAlone previous
        → NamesOnly keys
        → Holds previous
        → nat_eq (length key) 0 ≡ false
        → add_previous cipher previous keys ≡ some keys'
        → key_at (key_id cipher key) keys' ≡ some key
    add_previous-Holds [] keys keys' alone only held long e = absurd held
    add_previous-Holds (k ∷ previous) keys keys' alone only held long e =
        elim (add_previous_round k previous keys keys' e) [
          | inl (rest, short) ↦ elim held [
            | inl same ↦ absurd (ground (arith, short, long, ap (λ r. length r) same))
            | inr later ↦ add_previous-Holds previous keys keys' alone.1 only later long rest
          ]
          | inr rest ↦ elim held [
            | inl same ↦
                let (found, there) = add_absent_holds (key_id cipher k) k keys in
                let there' : key_at (key_id cipher key) (with_key k keys) ≡ some found =
                  ap (λ j. key_at (key_id cipher j) (with_key k keys)) (sym same) ∙ there in
                let it : found ≡ key = with_key-NamesOnly k keys alone.0 only found there' in
                add_previous_keeps previous (key_id cipher key) key (with_key k keys) keys'
                  (there' ∙ ap some it) rest
            | inr later ↦
                add_previous-Holds previous (with_key k keys) keys' alone.1
                  (with_key-NamesOnly k keys alone.0 only) later long rest
          ]
        ]
