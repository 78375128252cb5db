-- ===== src/Secrets/Tests.antt =====
-- A toy cipher that leaves the text as it is, and a rotation from one key to another.
use pgoverlay.Base.{
  ℕ, true, false, every, ◌≡◌, refl, inl, inr, some, [], ◌∷◌, ◌++◌, arith, nat_eq, if◌then◌else◌,
  length, Bytes, same_bytes, Bool-cases,
}
use pgoverlay.Secrets.Box.{
  Cipher, SecretKeys, SecretBox, key_id, key_at, add_previous, add_legacy, new_secret_box, built,
  encrypt, stored, decrypt, plain, is_current,
}
use pgoverlay.Secrets.Opening.{IsCipher, not_colon}
use pgoverlay.Secrets.Rotation.{IsAlone}
use pgoverlay.Secrets.Passwords.{decrypt-encrypt, decrypt-encrypt_rotated}

abbrev mask : ℕ → ℕ
mask c = if nat_eq c 58 then 0 else c

abbrev first_byte : Bytes → Bytes
first_byte [] = 1 ∷ []
first_byte (c ∷ s) = mask c ∷ []

abbrev toy : Cipher
toy = record {
  seal = λ key nonce text. text;
  unseal = λ key nonce text. some text;
  encode = λ s. s;
  decode = λ s. some s;
  digest = first_byte;
}

toy_names :
    (key : Bytes)
    → (every not_colon (first_byte key) ≡ true) × (nat_eq (length (first_byte key)) 0 ≡ false)
toy_names [] = (refl, refl)
toy_names (c ∷ key) = elim (Bool-cases (nat_eq c 58)) [
  | inl e ↦ rw e (refl, refl)
  | inr e ↦ rw (e, e) (refl, refl)
]

toy-IsCipher : IsCipher toy
toy-IsCipher = record {
  decodes = λ s. refl;
  unseals = λ key nonce text k n. refl;
  names = λ key k. toy_names key;
}

abbrev eight : ℕ → Bytes
eight c = c ∷ c ∷ c ∷ c ∷ c ∷ c ∷ c ∷ c ∷ []

abbrev key_of_byte : ℕ → Bytes
key_of_byte c = eight c ++ (eight c ++ (eight c ++ eight c))

abbrev old : SecretKeys
old = record { primary = key_of_byte 97; previous = []; legacy = [] }

abbrev new : SecretKeys
new = record { primary = key_of_byte 98; previous = key_of_byte 97 ∷ []; legacy = [] }

abbrev old_box : SecretBox
old_box = record { primary_id = 97 ∷ []; by_id = (97 ∷ [], key_of_byte 97) ∷ []; legacy_keys = [] }

abbrev new_box : SecretBox
new_box = record {
  primary_id = 98 ∷ [];
  by_id = (97 ∷ [], key_of_byte 97) ∷ (98 ∷ [], key_of_byte 98) ∷ [];
  legacy_keys = [];
}

old_built : new_secret_box toy old ≡ built (some old_box)
unfolding new_secret_box key_id add_previous add_legacy key_at same_bytes
old_built = refl

new_built : new_secret_box toy new ≡ built (some new_box)
unfolding new_secret_box key_id add_previous add_legacy key_at same_bytes
new_built = refl

abbrev nonce : Bytes
nonce = 1 ∷ 2 ∷ 3 ∷ 4 ∷ 5 ∷ 6 ∷ 7 ∷ 8 ∷ 9 ∷ 10 ∷ 11 ∷ 12 ∷ []

-- "pw"
abbrev password : Bytes
password = 112 ∷ 119 ∷ []

decrypt-encrypt_example :
    (v : Bytes) × (encrypt toy (some old_box) (some nonce) password ≡ stored v)
    × (decrypt toy (some old_box) v ≡ plain password)
    × (is_current (some old_box) v ≡ true)
decrypt-encrypt_example =
    decrypt-encrypt toy toy-IsCipher old old_box nonce password refl old_built refl

other-IsAlone : IsAlone toy (key_of_byte 97) (key_of_byte 98)
unfolding key_id
other-IsAlone e = absurd (ground (arith, e))

same-IsAlone : IsAlone toy (key_of_byte 97) (key_of_byte 97)
same-IsAlone e = refl

decrypt-encrypt_rotated_example :
    (v : Bytes) × (encrypt toy (some old_box) (some nonce) password ≡ stored v)
    × (decrypt toy (some new_box) v ≡ plain password)
decrypt-encrypt_rotated_example =
    decrypt-encrypt_rotated toy toy-IsCipher old old_box new new_box nonce password refl old_built
      refl new_built (inl refl) other-IsAlone (same-IsAlone, tt) refl refl
