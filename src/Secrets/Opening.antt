-- ===== src/Secrets/Opening.antt =====
-- A password that was stored under a key is read back with that key.
use mathlib.Core.List.{append_assoc}
use pgoverlay.Base.{
  ℕ, Bool, true, false, not, ◌≡◌, refl, sym, ap, ◌∙◌, Option, some, [], ◌∷◌, ◌++◌, arith, ltb,
  nat_eq, nat_eq_iff, length, length-append, take, drop, take-append, drop-append, every, Bytes,
}
use pgoverlay.Secrets.Box.{
  Cipher, SecretBox, nonce_size, colon, has_prefix, cut_colon, is_key, sealed_text, open_sealed,
  open_under, opened_or, open_v2, key_of, decrypt, plain, unavailable, refused, is_current,
}

abbrev pub not_colon : ℕ → Bool
not_colon c = not (nat_eq c colon)

-- What the code relies on: base64 decodes what it encodes, the cipher opens what it sealed under the
-- same key and nonce, and the id of a key is some hex text.
pub record IsCipher (cipher : Cipher) : Type 0 where
  pub decodes : (s : Bytes) → cipher.decode (cipher.encode s) ≡ some s
  pub unseals :
      (key nonce text : Bytes)
      → is_key key ≡ true
      → length nonce ≡ nonce_size
      → cipher.unseal key nonce (cipher.seal key nonce text) ≡ some text
  pub names :
      (key : Bytes)
      → is_key key ≡ true
      → (every not_colon (cipher.digest key) ≡ true)
        × (nat_eq (length (cipher.digest key)) 0 ≡ false)

cut_colon-append :
    (id body : Bytes) → every not_colon id ≡ true → cut_colon (id ++ colon ∷ body) ≡ some (id, body)
unfolding cut_colon
cut_colon-append [] body h = refl
cut_colon-append (c ∷ id) body h =
    let other : nat_eq c colon ≡ false = ground (arith, h) in
    rw (other, cut_colon-append id body (ground (arith, h))) refl

module _ (cipher : Cipher) (laws : IsCipher cipher) where
  open_sealed-encode :
      (key nonce text : Bytes)
      → is_key key ≡ true
      → length nonce ≡ nonce_size
      → open_sealed cipher key (cipher.encode (nonce ++ cipher.seal key nonce text)) ≡ some text
  unfolding open_sealed
  open_sealed-encode key nonce text k n =
      let sealed_part = cipher.seal key nonce text in
      let long : ltb (length (nonce ++ sealed_part)) nonce_size ≡ false =
        ground (arith, length-append nonce sealed_part, n) in
      let front : take nonce_size (nonce ++ sealed_part) ≡ nonce =
        ap (λ m. take m (nonce ++ sealed_part)) (sym n) ∙ take-append nonce sealed_part in
      let back : drop nonce_size (nonce ++ sealed_part) ≡ sealed_part =
        ap (λ m. drop m (nonce ++ sealed_part)) (sym n) ∙ drop-append nonce sealed_part in
      rw (laws.decodes (nonce ++ sealed_part), long, front, back) (laws.unseals key nonce text k n)

  pub decrypt-sealed_text :
      (box : Option SecretBox) (id key nonce text : Bytes)
      → every not_colon id ≡ true
      → key_of cipher box id ≡ some key
      → is_key key ≡ true
      → length nonce ≡ nonce_size
      → decrypt cipher box (sealed_text cipher id key nonce text) ≡ plain text
  unfolding decrypt has_prefix
  decrypt-sealed_text box id key nonce text i held k n =
      ap (open_v2 cipher box)
        (cut_colon-append id (cipher.encode (nonce ++ cipher.seal key nonce text)) i)
      ∙ ap (open_under cipher id (cipher.encode (nonce ++ cipher.seal key nonce text))) held
      ∙ ap (opened_or cipher (unavailable (refused id))) (open_sealed-encode key nonce text k n)

has_prefix-append : (p s : Bytes) → has_prefix p (p ++ s) ≡ true
unfolding has_prefix
has_prefix-append [] s = refl
has_prefix-append (c ∷ p) s = ground (arith, nat_eq_iff c c, has_prefix-append p s)

pub is_current-sealed_text :
    (cipher : Cipher) (box : SecretBox) (key nonce text : Bytes)
    → is_current (some box) (sealed_text cipher box.primary_id key nonce text) ≡ true
unfolding is_current has_prefix
is_current-sealed_text cipher box key nonce text =
    let shape =
      append_assoc box.primary_id (colon ∷ [])
        (cipher.encode (nonce ++ cipher.seal key nonce text)) in
    let begins : has_prefix (box.primary_id ++ colon ∷ [])
          (box.primary_id ++ colon ∷ cipher.encode (nonce ++ cipher.seal key nonce text))
        ≡ true =
      ap (has_prefix (box.primary_id ++ colon ∷ [])) (sym shape)
      ∙ has_prefix-append (box.primary_id ++ colon ∷ [])
          (cipher.encode (nonce ++ cipher.seal key nonce text)) in
    ground (arith, begins)
