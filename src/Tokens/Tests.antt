-- ===== src/Tokens/Tests.antt =====
-- A token that is made, found and revoked. The hash is the secret itself.
use pgoverlay.Base.{
  ◌≡◌, refl, some, List, [], ◌∷◌, if◌then◌else◌, Bytes, same_bytes, exists_where, delete_where,
  count_where,
}
use pgoverlay.Tokens.Table.{
  Token, done, create_api_token, insert_token, validate_token_name, lookup_api_token_actor,
  revoke_api_token,
}
use pgoverlay.Tokens.Lookup.{IsTable, lookup-create_api_token}
use pgoverlay.Tokens.Revoke.{unless_named, lookup-revoke_api_token}
use pgoverlay.Tokens.Runs.{TokenOp, create}

abbrev same : Bytes → Bytes
same s = s

-- "ci"
abbrev ci : Bytes
ci = 99 ∷ 105 ∷ []

abbrev secret : Bytes
secret = 49 ∷ 50 ∷ []

abbrev ci_token : Token
ci_token = record { id = 1 ∷ []; name = ci; token_hash = secret; role = "admin" }

ci_created : create_api_token same (1 ∷ []) (some secret) ci "admin" [] ≡ done (ci_token ∷ [])
unfolding create_api_token insert_token validate_token_name exists_where same_bytes
ci_created = refl

ci_revoked : revoke_api_token ci (ci_token ∷ []) ≡ done []
unfolding revoke_api_token count_where delete_where same_bytes
ci_revoked = refl

ci-IsTable : IsTable (ci_token ∷ [])
unfolding validate_token_name exists_where same_bytes
ci-IsTable = (refl, refl, refl, tt)

lookup-create_api_token_example : lookup_api_token_actor same secret (ci_token ∷ []) ≡ (
    if same_bytes secret secret then some (ci, "admin") else lookup_api_token_actor same secret [])
lookup-create_api_token_example =
    lookup-create_api_token same (1 ∷ []) secret ci "admin" [] (ci_token ∷ []) secret ci_created
      refl

lookup-revoke_api_token_example :
    lookup_api_token_actor same secret []
    ≡ unless_named same ci (lookup_api_token_actor same secret (ci_token ∷ []))
lookup-revoke_api_token_example =
    lookup-revoke_api_token same ci (ci_token ∷ []) [] secret ci-IsTable ci_revoked

abbrev calls : List TokenOp
calls = create (1 ∷ []) (some secret) ci "admin" ∷ []
