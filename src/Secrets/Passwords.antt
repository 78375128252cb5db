-- ===== src/Secrets/Passwords.antt =====
-- A password that a registry stores is read back with the same keys, and still after the key is rotated.
use mathlib.Core.Path.{subst}
use pgoverlay.Base.{
  every, same_bytes_sound, true, false, ◌||◌, ◌≡◌, refl, sym, ap, ◌∙◌, inl, inr, Option, none, some,
  List, [], ◌∷◌, arith, nat_eq, length, All, Bytes, same_bytes_refl, same_bytes, Bool-cases,
}
use pgoverlay.Secrets.Box.{
  Cipher, SecretKeys, SecretBox, nonce_size, key_at, is_key, key_id, primary_entry, after_primary,
  no_keys, new_secret_box, add_legacy, assemble, Built, built, sealed_text, seal_under, encrypt,
  stored, decrypt, plain, is_current,
}
use pgoverlay.Secrets.Opening.{IsCipher, not_colon, decrypt-sealed_text, is_current-sealed_text}
use pgoverlay.Secrets.Rotation.{
  some-injective, add_previous_keeps, add_previous-Holds, IsAlone, NamesOnly, Holds,
}

-- what a box was made of
assemble_parts :
    (id : Bytes) (o : Option (List (Bytes × Bytes))) (legacy : Option (List Bytes))
    (box : SecretBox)
    → assemble id o legacy ≡ built (some box)
    → (o ≡ some box.by_id) × (id ≡ box.primary_id)
assemble_parts id none legacy box e = absurd (cc)
assemble_parts id (some keys) none box e = absurd (cc)
assemble_parts id (some keys) (some legacy) box e = (ap (λ b. keys_of b) e, ap (λ b. id_of b) e)
  where
    keys_of : Built → Option (List (Bytes × Bytes))
    keys_of (built (some b)) = some b.by_id
    keys_of _ = none

    id_of : Built → Bytes
    id_of (built (some b)) = b.primary_id
    id_of _ = []

module _ (cipher : Cipher) where
  module _ (keys : SecretKeys) (box : SecretBox) where
    box_parts :
        new_secret_box cipher keys ≡ built (some box)
        → (after_primary cipher keys.previous (primary_entry cipher keys.primary) ≡ some box.by_id)
          × (key_id cipher keys.primary ≡ box.primary_id)
    unfolding new_secret_box
    box_parts e = elim (Bool-cases (no_keys cipher keys)) [
      | inl empty ↦ absurd (ground (arith, e, empty))
      | inr some_key ↦ assemble_parts _ _ (add_legacy keys.legacy) box (sym (round some_key) ∙ e)
    ]
      where
        round :
            no_keys cipher keys ≡ false
            → new_secret_box cipher keys
              ≡ assemble
                  (key_id cipher keys.primary)
                  (after_primary cipher keys.previous (primary_entry cipher keys.primary))
                  (add_legacy keys.legacy)
        round h = rw h refl

    primary_entry_at :
        is_key keys.primary ≡ true
        → primary_entry cipher keys.primary ≡ some ((key_id cipher keys.primary, keys.primary) ∷ [])
    primary_entry_at good =
        let long : nat_eq (length keys.primary) 0 ≡ false = ground (arith, good) in
        rw (long, good) refl

    primary_held :
        is_key keys.primary ≡ true
        → new_secret_box cipher keys ≡ built (some box)
        → key_at box.primary_id box.by_id ≡ some keys.primary
    unfolding key_at
    primary_held good e =
        let (made, named) = box_parts e in
        subst (λ i. key_at i box.by_id ≡ some keys.primary) named
          (add_previous_keeps cipher keys.previous (key_id cipher keys.primary) keys.primary
            ((key_id cipher keys.primary, keys.primary) ∷ []) box.by_id
            (rw (same_bytes_refl (key_id cipher keys.primary)) refl)
            (sym (ap (after_primary cipher keys.previous) (primary_entry_at good)) ∙ made))

  key_id_digest : (key : Bytes) → is_key key ≡ true → key_id cipher key ≡ cipher.digest key
  unfolding key_id
  key_id_digest key good = rw good refl

  module _ (laws : IsCipher cipher) (keys : SecretKeys) (box : SecretBox) where
    id_text :
        is_key keys.primary ≡ true
        → new_secret_box cipher keys ≡ built (some box)
        → box.primary_id ≡ cipher.digest keys.primary
    id_text good e = sym (box_parts keys box e).1 ∙ key_id_digest keys.primary good

    id_colons :
        is_key keys.primary ≡ true
        → new_secret_box cipher keys ≡ built (some box)
        → every not_colon box.primary_id ≡ true
    id_colons good e = ap (every not_colon) (id_text good e) ∙ (laws.names keys.primary good).0

    only_primary :
        (other : Bytes)
        → IsAlone cipher keys.primary other
        → NamesOnly cipher keys.primary ((key_id cipher other, other) ∷ [])
    unfolding key_at
    only_primary other alone k =
        elim (Bool-cases (same_bytes (key_id cipher other) (key_id cipher keys.primary))) [
          | inr e ↦ rw e (λ same. absurd (cc))
          | inl e ↦ rw e (λ same.
              sym (some-injective other k same)
              ∙ alone (same_bytes_sound (key_id cipher other) (key_id cipher keys.primary) e))
        ]

    short_text :
        (nonce text : Bytes)
        → nat_eq (length text) 0 ≡ true
        → (v : Bytes) × (encrypt cipher (some box) (some nonce) text ≡ stored v)
          × (decrypt cipher (some box) v ≡ plain text)
          × (is_current (some box) v ≡ true)
    unfolding encrypt decrypt is_current
    short_text nonce [] short =
        let off : (nat_eq (length box.primary_id) 0 || true) ≡ true = ground arith in
        ([], rw off refl, refl, refl)
    short_text nonce (c ∷ text) short = absurd (ground (arith, short))

    encrypt_seals :
        (nonce text : Bytes)
        → is_key keys.primary ≡ true
        → new_secret_box cipher keys ≡ built (some box)
        → nat_eq (length text) 0 ≡ false
        → encrypt cipher (some box) (some nonce) text
          ≡ stored (sealed_text cipher box.primary_id keys.primary nonce text)
    unfolding encrypt
    encrypt_seals nonce text good e long =
        let named : nat_eq (length box.primary_id) 0 ≡ false =
          ap (λ i. nat_eq (length i) 0) (id_text good e) ∙ (laws.names keys.primary good).1 in
        rw (named, long)
          (ap (λ k. seal_under cipher box.primary_id k (some nonce) text)
            (primary_held keys box good e))

    -- What a box with a 32-byte primary key stores for a password, with a nonce of 12 bytes, is read
    -- back as the password, and counts as current. The cipher opens what it sealed, base64 decodes
    -- what it encodes, and key ids are texts without a colon.
    pub decrypt-encrypt :
        (nonce text : Bytes)
        → is_key keys.primary ≡ true
        → new_secret_box cipher keys ≡ built (some box)
        → length nonce ≡ nonce_size
        → (v : Bytes) × (encrypt cipher (some box) (some nonce) text ≡ stored v)
          × (decrypt cipher (some box) v ≡ plain text)
          × (is_current (some box) v ≡ true)
    decrypt-encrypt nonce text good e n = elim (Bool-cases (nat_eq (length text) 0)) [
      | inr long ↦ (
        sealed_text cipher box.primary_id keys.primary nonce text,
        encrypt_seals nonce text good e long,
        decrypt-sealed_text cipher laws (some box) box.primary_id keys.primary nonce text
            (id_colons good e) (primary_held keys box good e) good n,
        is_current-sealed_text cipher box keys.primary nonce text,
      )
      | inl short ↦ short_text nonce text short
    ]

    -- A password that is not empty, stored before a rotation under a 32-byte primary key, is read
    -- back after it: with a new box that has the old key among its previous keys and a 32-byte
    -- primary key, where no other of its keys has the old key's id. The cipher, base64 and key ids
    -- are as for one box.
    pub decrypt-encrypt_rotated :
        (keys' : SecretKeys) (box' : SecretBox) (nonce text : Bytes)
        → is_key keys.primary ≡ true
        → new_secret_box cipher keys ≡ built (some box)
        → is_key keys'.primary ≡ true
        → new_secret_box cipher keys' ≡ built (some box')
        → Holds cipher keys.primary keys'.previous
        → IsAlone cipher keys.primary keys'.primary
        → All (IsAlone cipher keys.primary) keys'.previous
        → length nonce ≡ nonce_size
        → nat_eq (length text) 0 ≡ false
        → (v : Bytes) × (encrypt cipher (some box) (some nonce) text ≡ stored v)
          × (decrypt cipher (some box') v ≡ plain text)
    decrypt-encrypt_rotated keys' box' nonce text good e good' e' holds alone alone_all n long = (
      sealed_text cipher box.primary_id keys.primary nonce text,
      encrypt_seals nonce text good e long,
      decrypt-sealed_text cipher laws (some box') box.primary_id keys.primary nonce text
          (id_colons good e)
          (subst (λ i. key_at i box'.by_id ≡ some keys.primary) (box_parts keys box e).1
            (add_previous-Holds cipher keys.primary keys'.previous
              ((key_id cipher keys'.primary, keys'.primary) ∷ []) box'.by_id alone_all
              (only_primary keys'.primary alone) holds (ground (arith, good))
              (sym (ap (after_primary cipher keys'.previous) (primary_entry_at keys' box' good'))
                ∙ (box_parts keys' box' e').0)))
          good n,
    )
