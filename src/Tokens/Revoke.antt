-- ===== src/Tokens/Revoke.antt =====
-- What a presented secret resolves to after a revocation.
use pgoverlay.Base.{
  Bool, true, false, ◌≡◌, refl, sym, ap, ◌∙◌, inl, inr, Option, none, some, List, [], ◌∷◌, String,
  arith, nat_eq, if◌then◌else◌, length, delete_where, find_where, exists_where, count_where, Bytes,
  same_bytes, same_bytes_sound, Bool-cases,
}
use pgoverlay.Tokens.Table.{
  Token, done, refused, not_found, has_hash, has_name, lookup_api_token_actor, revoke_api_token,
  name_and_role,
}
use pgoverlay.Tokens.Lookup.{IsTable, exists-delete_hash}

find_none :
    (hash : Bytes) (tokens : List Token)
    → exists_where (has_hash hash) tokens ≡ false
    → find_where (has_hash hash) tokens ≡ none
unfolding find_where exists_where
find_none hash [] h = refl
find_none hash (t ∷ tokens) h =
    let miss : has_hash hash t ≡ false = ground (arith, h) in
    rw miss (find_none hash tokens (ground (arith, h)))

revoke_passes :
    (b : Bool) (new tokens' : List Token)
    → (if b then refused not_found else done new) ≡ done tokens'
    → new ≡ tokens'
revoke_passes true new tokens' e = absurd (cc)
revoke_passes false new tokens' e = ground (arith, e)

module _ (sha256_hex : Bytes → Bytes) where
  abbrev pub unless_named : Bytes → Option (Bytes × String) → Option (Bytes × String)
  unless_named name none = none
  unless_named name (some (n, r)) = if same_bytes n name then none else some (n, r)

  find-delete :
      (hash name : Bytes) (tokens : List Token)
      → IsTable tokens
      → name_and_role sha256_hex (find_where (has_hash hash) (delete_where (has_name name) tokens))
        ≡ unless_named name (name_and_role sha256_hex (find_where (has_hash hash) tokens))
  unfolding find_where delete_where
  find-delete hash name [] table = refl
  find-delete hash name (t ∷ tokens) (allowed, role, new, older) =
      elim (Bool-cases (has_hash hash t)) [
        | inl hit ↦ elim (Bool-cases (has_name name t)) [
          | inr n ↦ rw (n, hit) (rw n refl)
          | inl n ↦
              let mine : t.token_hash ≡ hash = same_bytes_sound t.token_hash hash hit in
              let gone : find_where (has_hash hash) (delete_where (has_name name) tokens) ≡ none =
                find_none hash (delete_where (has_name name) tokens) (
                  exists-delete_hash hash name tokens
                    (ap (λ h. exists_where (has_hash h) tokens) (sym mine) ∙ new)) in
              rw (n, hit, gone) (rw n refl)
        ]
        | inr miss ↦ elim (Bool-cases (has_name name t)) [
          | inl n ↦ rw (n, miss) (find-delete hash name tokens older)
          | inr n ↦ rw (n, miss) (find-delete hash name tokens older)
        ]
      ]

  pub revoke_parts :
      (name : Bytes) (tokens tokens' : List Token)
      → revoke_api_token name tokens ≡ done tokens'
      → delete_where (has_name name) tokens ≡ tokens'
  unfolding revoke_api_token
  revoke_parts name tokens tokens' e =
      (revoke_passes (nat_eq (count_where (has_name name) tokens) 0) _ tokens' e)

  -- After a revocation, in a table whose hashes are unique and whose names and roles are allowed, no
  -- secret resolves to the revoked name, and each other secret resolves as before.
  pub lookup-revoke_api_token :
      (name : Bytes) (tokens tokens' : List Token) (q : Bytes)
      → IsTable tokens
      → revoke_api_token name tokens ≡ done tokens'
      → lookup_api_token_actor sha256_hex q tokens'
        ≡ unless_named name (lookup_api_token_actor sha256_hex q tokens)
  unfolding lookup_api_token_actor
  lookup-revoke_api_token name tokens tokens' q table e =
      rw (← revoke_parts name tokens tokens' e) (elim (Bool-cases (nat_eq (length q) 0)) [
        | inl short ↦ rw short refl
        | inr long ↦ rw long (find-delete (sha256_hex q) name tokens table)
      ])
