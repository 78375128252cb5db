-- ===== src/Tokens/Runs.antt =====
-- Who a presented secret can be, after any sequence of calls.
use pgoverlay.Base.{
  ℕ, Bool, true, false, not, ◌||◌, ◌≡◌, Option, List, [], ◌∷◌, String, nat_eq, every, Bytes,
  same_bytes,
}
use pgoverlay.Tokens.Table.{
  Token, TokenResult, done, refused, valid_role, env_token_actor, create_api_token,
  revoke_api_token,
}

pub data TokenOp : Type 0 where
  create : Bytes → Option Bytes → Bytes → String → TokenOp
  revoke : Bytes → TokenOp

-- A call that fails leaves the table as it was.
abbrev after_call : List Token → TokenResult (List Token) → List Token
after_call tokens (done tokens') = tokens'
after_call tokens (refused e) = tokens

-- ':', ' ', '(' and ')' are not plain.
abbrev pub plain_byte : ℕ → Bool
plain_byte c = not (nat_eq c 58 || (nat_eq c 32 || (nat_eq c 40 || nat_eq c 41)))

module _ (sha256_hex : Bytes → Bytes) where
  unfoldable pub run_tokens : List Token → List TokenOp → List Token
  run_tokens tokens [] = tokens
  run_tokens tokens (create id drawn name role ∷ rest) =
      run_tokens (after_call tokens (create_api_token sha256_hex id drawn name role tokens)) rest
  run_tokens tokens (revoke name ∷ rest) =
      run_tokens (after_call tokens (revoke_api_token name tokens)) rest

  abbrev IsPerson : Bytes × String → Type 0
  IsPerson (name, role) =
      (same_bytes name [] ≡ false)
      × (every plain_byte name ≡ true)
      × (same_bytes name env_token_actor ≡ false)
      × (valid_role role ≡ true)
