-- ===== src/Tokens/Lookup.antt =====
-- What a presented secret resolves to, after the creation and the revocation of tokens.
use mathlib.Core.Path.{subst}
use pgoverlay.Base.{
  Bool, true, false, ◌≡◌, refl, inl, inr, Option, none, some, List, [], ◌∷◌, String, arith, nat_eq,
  if◌then◌else◌, length, delete_where, find_where, exists_where, Bytes, same_bytes, Bool-cases,
}
use pgoverlay.Tokens.Table.{
  Token, TokenError, constraint_failed, invalid_role, TokenResult, done, refused, valid_role,
  validate_token_name, has_hash, has_name, insert_token, unless_refused, create_api_token,
  lookup_api_token_actor, mint,
}

-- Every stored token has an allowed name and role, and a hash that no older one has.
abbrev pub IsTable : List Token → Type 0
IsTable [] = Unit
IsTable (t ∷ older) =
    (validate_token_name t.name ≡ none)
    × (valid_role t.role ≡ true)
    × (exists_where (has_hash t.token_hash) older ≡ false)
    × IsTable older

guard_passes :
    (b : Bool) (new tokens' : List Token)
    → (if b then refused constraint_failed else done new) ≡ done tokens'
    → (b ≡ false) × (new ≡ tokens')
guard_passes true new tokens' e = absurd (cc)
guard_passes false new tokens' e = (refl, ground (arith, e))

insert_parts :
    (t : Token) (tokens tokens' : List Token)
    → insert_token t tokens ≡ done tokens'
    → (exists_where (has_hash t.token_hash) tokens ≡ false) × (t ∷ tokens ≡ tokens')
unfolding insert_token
insert_parts t tokens tokens' e =
    let (free, same) = guard_passes _ (t ∷ tokens) tokens' e in (ground (arith, free), same)

insert_token-IsTable :
    (t : Token) (tokens tokens' : List Token)
    → validate_token_name t.name ≡ none
    → valid_role t.role ≡ true
    → IsTable tokens
    → insert_token t tokens ≡ done tokens'
    → IsTable tokens' × (t ∷ tokens ≡ tokens')
unfolding insert_token
insert_token-IsTable t tokens tokens' name role table e =
    let (new, same) = insert_parts t tokens tokens' e in
    (subst IsTable same (name, role, new, table), same)

pub exists-delete_hash :
    (hash name : Bytes) (tokens : List Token)
    → exists_where (has_hash hash) tokens ≡ false
    → exists_where (has_hash hash) (delete_where (has_name name) tokens) ≡ false
unfolding exists_where delete_where
exists-delete_hash hash name [] h = h
exists-delete_hash hash name (t ∷ tokens) h = ground (arith, h, exists-delete_hash hash name tokens)

pub delete_where-IsTable :
    (name : Bytes) (tokens : List Token)
    → IsTable tokens
    → IsTable (delete_where (has_name name) tokens)
unfolding delete_where
delete_where-IsTable name [] table = tt
delete_where-IsTable name (t ∷ tokens) (allowed, role, new, older) =
    elim (Bool-cases (has_name name t)) [
      | inl e ↦ rw e (delete_where-IsTable name tokens older)
      | inr e ↦ rw e (
        allowed,
        role,
        exists-delete_hash t.token_hash name tokens new,
        delete_where-IsTable name tokens older,
      )
    ]

module _ (sha256_hex : Bytes → Bytes) where
  role_passes :
      (b : Bool) (r : TokenResult (List Token)) (tokens' : List Token)
      → (if b then r else refused invalid_role) ≡ done tokens'
      → (b ≡ true) × (r ≡ done tokens')
  role_passes true r tokens' e = (refl, e)
  role_passes false r tokens' e = absurd (cc)

  name_passes :
      (o : Option TokenError) (r : TokenResult (List Token)) (tokens' : List Token)
      → unless_refused o r ≡ done tokens'
      → (o ≡ none) × (r ≡ done tokens')
  name_passes none r tokens' e = (refl, e)
  name_passes (some x) r tokens' e = absurd (cc)

  abbrev minted : Bytes → Bytes → String → Bytes → Token
  minted id name role secret = record {
    id = id;
    name = name;
    token_hash = sha256_hex secret;
    role = role;
  }

  create_parts :
      (id : Bytes) (drawn : Option Bytes) (name : Bytes) (role : String)
      (tokens tokens' : List Token)
      → create_api_token sha256_hex id drawn name role tokens ≡ done tokens'
      → (validate_token_name name ≡ none)
        × (valid_role role ≡ true)
        × (mint sha256_hex id name role drawn tokens ≡ done tokens')
  unfolding create_api_token
  create_parts id drawn name role tokens tokens' e =
      let (named, rest) = name_passes (validate_token_name name) _ tokens' e in
      let (ranked, made) = role_passes (valid_role role) _ tokens' rest in (named, ranked, made)

  pub create_api_token-IsTable :
      (id : Bytes) (drawn : Option Bytes) (name : Bytes) (role : String)
      (tokens tokens' : List Token)
      → IsTable tokens
      → create_api_token sha256_hex id drawn name role tokens ≡ done tokens'
      → IsTable tokens'
  create_api_token-IsTable id none name role tokens tokens' table e =
      absurd (cc ((create_parts id none name role tokens tokens' e).2))
  create_api_token-IsTable id (some secret) name role tokens tokens' table e =
      let (named, ranked, made) = create_parts id (some secret) name role tokens tokens' e in
      (insert_token-IsTable (minted id name role secret) tokens tokens' named ranked table made).0

  -- A secret that was just minted resolves to its token's name and role, and any other secret that is
  -- not empty, one with another hash, to what it resolved to before.
  pub lookup-create_api_token :
      (id secret name : Bytes) (role : String) (tokens tokens' : List Token) (q : Bytes)
      → create_api_token sha256_hex id (some secret) name role tokens ≡ done tokens'
      → nat_eq (length q) 0 ≡ false
      → lookup_api_token_actor sha256_hex q tokens' ≡ (
          if same_bytes (sha256_hex secret) (sha256_hex q)
          then some (name, role)
          else lookup_api_token_actor sha256_hex q tokens)
  unfolding lookup_api_token_actor find_where
  lookup-create_api_token id secret name role tokens tokens' q e long =
      let (named, ranked, made) = create_parts id (some secret) name role tokens tokens' e in
      let same = (insert_parts (minted id name role secret) tokens tokens' made).1 in
      rw (← same) (elim (Bool-cases (same_bytes (sha256_hex secret) (sha256_hex q))) [
        | inl hit ↦ rw (long, hit) refl
        | inr miss ↦ rw (long, miss) refl
      ])
