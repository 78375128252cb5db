-- ===== src/Secrets/Box.antt =====
-- The secret box of crypto.go: the keys it holds, and the stored form of a password. The cipher, the
-- base64 coding and the digest that names a key are parameters.
use pgoverlay.Base.{
  ℕ, Bool, true, false, not, ◌&&◌, ◌||◌, Option, none, some, List, [], ◌∷◌, ◌++◌, ltb, nat_eq,
  if◌then◌else◌, length, take, drop, Bytes, same_bytes,
}

-- AES-256-GCM under a key, base64.StdEncoding, and the hex text of KeyID
pub record Cipher : Type 0 where
  pub seal : Bytes → Bytes → Bytes → Bytes
  pub unseal : Bytes → Bytes → Bytes → Option Bytes
  pub encode : Bytes → Bytes
  pub decode : Bytes → Option Bytes
  pub digest : Bytes → Bytes

pub record SecretKeys : Type 0 where
  pub primary : Bytes
  pub previous : List Bytes
  pub legacy : List Bytes

-- `by_id` maps a key id to its key.
pub record SecretBox : Type 0 where
  pub primary_id : Bytes
  pub by_id : List (Bytes × Bytes)
  pub legacy_keys : List Bytes

abbrev pub nonce_size : ℕ
nonce_size = 12

abbrev pub colon : ℕ
colon = 58

-- "enc:", "enc:v1:" and "enc:v2:"
abbrev pub enc_prefix : Bytes
enc_prefix = 101 ∷ 110 ∷ 99 ∷ 58 ∷ []

abbrev pub enc_prefix_v1 : Bytes
enc_prefix_v1 = 101 ∷ 110 ∷ 99 ∷ 58 ∷ 118 ∷ 49 ∷ 58 ∷ []

abbrev pub enc_prefix_v2 : Bytes
enc_prefix_v2 = 101 ∷ 110 ∷ 99 ∷ 58 ∷ 118 ∷ 50 ∷ 58 ∷ []

unfoldable pub has_prefix : Bytes → Bytes → Bool
has_prefix [] s = true
has_prefix (p ∷ ps) [] = false
has_prefix (p ∷ ps) (c ∷ s) = nat_eq p c && has_prefix ps s

abbrev pub cons_part : ℕ → Option (Bytes × Bytes) → Option (Bytes × Bytes)
cons_part c none = none
cons_part c (some (a, b)) = some (c ∷ a, b)

-- strings.Cut at the first ":"
unfoldable pub cut_colon : Bytes → Option (Bytes × Bytes)
cut_colon [] = none
cut_colon (c ∷ rest) =
    let later = cons_part c (cut_colon rest) in if nat_eq c colon then some ([], rest) else later

unfoldable pub key_at : Bytes → List (Bytes × Bytes) → Option Bytes
key_at id [] = none
key_at id ((i, key) ∷ rest) =
    let later = key_at id rest in if same_bytes i id then some key else later

abbrev pub add_absent : Bytes → Bytes → List (Bytes × Bytes) → Option Bytes → List (Bytes × Bytes)
add_absent id key keys none = (id, key) ∷ keys
add_absent id key keys (some _) = keys

abbrev pub is_key : Bytes → Bool
is_key key = nat_eq (length key) 32

abbrev cons_key : Bytes → Option (List Bytes) → Option (List Bytes)
cons_key key none = none
cons_key key (some keys) = some (key ∷ keys)

-- The loop over the legacy keys
unfoldable pub add_legacy : List Bytes → Option (List Bytes)
add_legacy [] = some []
add_legacy (key ∷ rest) =
    let others = add_legacy rest in
    if nat_eq (length key) 0 then others else if is_key key then cons_key key others else none

-- A key of a wrong length, or a box; no keys at all give no box.
pub data Built : Type 0 where
  bad_key : Built
  built : Option SecretBox → Built

abbrev pub assemble : Bytes → Option (List (Bytes × Bytes)) → Option (List Bytes) → Built
assemble id none legacy = bad_key
assemble id (some keys) none = bad_key
assemble id (some keys) (some legacy) =
    built (some (record { primary_id = id; by_id = keys; legacy_keys = legacy }))

-- What encrypt gives; `no_cipher` is the call of a nil cipher.
pub data Sealed : Type 0 where
  stored : Bytes → Sealed
  no_randomness no_cipher : Sealed

pub data Reason : Type 0 where
  malformed earlier_token unknown_scheme : Reason
  not_configured refused : Bytes → Reason

pub data Opened : Type 0 where
  plain : Bytes → Opened
  unavailable : Reason → Opened

module _ (cipher : Cipher) where
  -- KeyID
  unfoldable pub key_id : Bytes → Bytes
  key_id key = if is_key key then cipher.digest key else []

  -- The loop over the previous keys; a key of another length is a configuration error.
  unfoldable pub add_previous : List Bytes → List (Bytes × Bytes) → Option (List (Bytes × Bytes))
  unfolding key_id
  add_previous [] keys = some keys
  add_previous (key ∷ rest) keys =
      let kept = add_previous rest keys in
      let added = add_previous rest (add_absent (key_id key) key keys (key_at (key_id key) keys)) in
      if nat_eq (length key) 0 then kept else if is_key key then added else none

  abbrev pub primary_entry : Bytes → Option (List (Bytes × Bytes))
  primary_entry key =
      if nat_eq (length key) 0
      then some []
      else if is_key key
      then some ((key_id key, key) ∷ [])
      else none

  abbrev pub after_primary :
      List Bytes → Option (List (Bytes × Bytes)) → Option (List (Bytes × Bytes))
  after_primary previous none = none
  after_primary previous (some keys) = add_previous previous keys

  abbrev pub no_keys : SecretKeys → Bool
  no_keys k =
      nat_eq (length k.primary) 0 && (nat_eq (length k.previous) 0 && nat_eq (length k.legacy) 0)

  -- newSecretBox
  unfoldable pub new_secret_box : SecretKeys → Built
  new_secret_box k =
      if no_keys k
      then built none
      else assemble (key_id k.primary) (after_primary k.previous (primary_entry k.primary))
          (add_legacy k.legacy)

  -- The form enc:v2:<kid>:base64(nonce || ciphertext)
  abbrev pub sealed_text : Bytes → Bytes → Bytes → Bytes → Bytes
  sealed_text id key nonce plain_text =
      enc_prefix_v2 ++ (id ++ colon ∷ cipher.encode (nonce ++ cipher.seal key nonce plain_text))

  abbrev pub seal_under : Bytes → Option Bytes → Option Bytes → Bytes → Sealed
  seal_under id none drawn plain_text = no_cipher
  seal_under id (some key) none plain_text = no_randomness
  seal_under id (some key) (some nonce) plain_text = stored (sealed_text id key nonce plain_text)

  -- encrypt, with the bytes that the random source gives, if it does
  unfoldable pub encrypt : Option SecretBox → Option Bytes → Bytes → Sealed
  unfolding key_at
  encrypt none drawn plain_text = stored plain_text
  encrypt (some box) drawn plain_text =
      if nat_eq (length box.primary_id) 0 || nat_eq (length plain_text) 0
      then stored plain_text
      else seal_under box.primary_id (key_at box.primary_id box.by_id) drawn plain_text

  -- openSealed
  abbrev pub unseal_raw : Bytes → Option Bytes → Option Bytes
  unseal_raw key none = none
  unseal_raw key (some raw) =
      if ltb (length raw) nonce_size
      then none
      else cipher.unseal key (take nonce_size raw) (drop nonce_size raw)

  unfoldable pub open_sealed : Bytes → Bytes → Option Bytes
  open_sealed key body = unseal_raw key (cipher.decode body)

  abbrev pub opened_or : Opened → Option Bytes → Opened
  opened_or failed none = failed
  opened_or failed (some text) = plain text

  abbrev pub open_under : Bytes → Bytes → Option Bytes → Opened
  open_under id body none = unavailable (not_configured id)
  open_under id body (some key) = opened_or (unavailable (refused id)) (open_sealed key body)

  abbrev pub key_of : Option SecretBox → Bytes → Option Bytes
  key_of none id = none
  key_of (some box) id = key_at id box.by_id

  abbrev pub open_v2 : Option SecretBox → Option (Bytes × Bytes) → Opened
  open_v2 box none = unavailable malformed
  open_v2 box (some (id, body)) = open_under id body (key_of box id)

  abbrev open_v1 : List Bytes → Bytes → Opened
  open_v1 [] body = unavailable earlier_token
  open_v1 (key ∷ rest) body = opened_or (open_v1 rest body) (open_sealed key body)

  abbrev legacy_of : Option SecretBox → List Bytes
  legacy_of none = []
  legacy_of (some box) = box.legacy_keys

  -- decrypt
  unfoldable pub decrypt : Option SecretBox → Bytes → Opened
  unfolding has_prefix cut_colon
  decrypt box text =
      if not (has_prefix enc_prefix text)
      then plain text
      else if has_prefix enc_prefix_v2 text
      then open_v2 box (cut_colon (drop 7 text))
      else if has_prefix enc_prefix_v1 text
      then open_v1 (legacy_of box) (drop 7 text)
      else unavailable unknown_scheme

-- isCurrent
unfoldable pub is_current : Option SecretBox → Bytes → Bool
unfolding has_prefix
is_current none text = true
is_current (some box) text =
    nat_eq (length text) 0
    || (nat_eq (length box.primary_id) 0
        || has_prefix (enc_prefix_v2 ++ (box.primary_id ++ colon ∷ [])) text)
