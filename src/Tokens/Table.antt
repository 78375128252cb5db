-- ===== src/Tokens/Table.antt =====
-- The operations of tokens.go on the table api_tokens, a list with the newest row first. Names, secrets
-- and hashes are lists of bytes. The hex text of a SHA-256 sum is a parameter.
use pgoverlay.Base.{
  ℕ, Bool, false, not, ◌&&◌, ◌||◌, Option, none, some, List, [], ◌∷◌, String, ◌==◌, leb, nat_eq,
  if◌then◌else◌, length, delete_where, find_where, exists_where, count_where, Bytes, is_alnum,
  every, same_bytes,
}

pub record Token : Type 0 where
  pub id : Bytes
  pub name : Bytes
  pub token_hash : Bytes
  pub role : String

pub data TokenError : Type 0 where
  invalid_token_name reserved_name invalid_role no_randomness constraint_failed not_found :
      TokenError

pub data TokenResult (A : Type 0) : Type 0 where
  done : A → TokenResult A
  refused : TokenError → TokenResult A

-- ValidRole
abbrev pub valid_role : String → Bool
valid_role role = role == "admin" || (role == "operator" || role == "viewer")

-- '.', '_', '-', a lowercase letter or a digit
abbrev pub token_name_byte : ℕ → Bool
token_name_byte c = is_alnum c || (nat_eq c 46 || (nat_eq c 95 || nat_eq c 45))

-- tokenNameRE: ^[a-z0-9][a-z0-9._-]{0,62}$
abbrev pub token_name_shape : Bytes → Bool
token_name_shape [] = false
token_name_shape (c ∷ rest) = is_alnum c && (every token_name_byte rest && leb (length rest) 62)

-- "root", the EnvTokenActor
abbrev pub env_token_actor : Bytes
env_token_actor = 114 ∷ 111 ∷ 111 ∷ 116 ∷ []

-- ValidateTokenName
unfoldable pub validate_token_name : Bytes → Option TokenError
unfolding same_bytes
validate_token_name name =
    if not (token_name_shape name)
    then some invalid_token_name
    else if same_bytes name env_token_actor
    then some reserved_name
    else none

abbrev pub has_hash : Bytes → Token → Bool
has_hash hash t = same_bytes t.token_hash hash

abbrev pub has_name : Bytes → Token → Bool
has_name name t = same_bytes t.name name

-- INSERT INTO api_tokens, under its primary key, the unique name and the unique index on the hash
unfoldable pub insert_token : Token → List Token → TokenResult (List Token)
insert_token t tokens =
    if exists_where (λ o. same_bytes o.id t.id) tokens
      || (exists_where (has_name t.name) tokens || exists_where (has_hash t.token_hash) tokens)
    then refused constraint_failed
    else done (t ∷ tokens)

abbrev pub unless_refused : Option TokenError → TokenResult (List Token) → TokenResult (List Token)
unless_refused none r = r
unless_refused (some e) r = refused e

module _ (sha256_hex : Bytes → Bytes) where
  abbrev pub mint : Bytes → Bytes → String → Option Bytes → List Token → TokenResult (List Token)
  mint id name role none tokens = refused no_randomness
  mint id name role (some secret) tokens =
      insert_token (record { id = id; name = name; token_hash = sha256_hex secret; role = role })
        tokens

  -- CreateAPIToken, with the id and the secret that are drawn
  unfoldable pub create_api_token :
      Bytes → Option Bytes → Bytes → String → List Token → TokenResult (List Token)
  unfolding insert_token validate_token_name
  create_api_token id drawn name role tokens =
      unless_refused (validate_token_name name)
        (if valid_role role then mint id name role drawn tokens else refused invalid_role)

  abbrev pub name_and_role : Option Token → Option (Bytes × String)
  name_and_role none = none
  name_and_role (some t) = some (t.name, t.role)

  -- LookupAPITokenActor
  unfoldable pub lookup_api_token_actor : Bytes → List Token → Option (Bytes × String)
  lookup_api_token_actor secret tokens =
      if nat_eq (length secret) 0
      then none
      else name_and_role (find_where (has_hash (sha256_hex secret)) tokens)

  abbrev role_of : Option Token → Option String
  role_of none = none
  role_of (some t) = some t.role

  -- LookupAPIToken
  unfoldable pub lookup_api_token : Bytes → List Token → Option String
  lookup_api_token secret tokens =
      if nat_eq (length secret) 0
      then none
      else role_of (find_where (has_hash (sha256_hex secret)) tokens)

-- RevokeAPIToken
unfoldable pub revoke_api_token : Bytes → List Token → TokenResult (List Token)
revoke_api_token name tokens =
    if nat_eq (count_where (has_name name) tokens) 0
    then refused not_found
    else done (delete_where (has_name name) tokens)
