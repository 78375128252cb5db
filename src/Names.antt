-- ===== src/Names.antt =====
-- pgoverlayconnect/names.go: the branch names that the GitHub App service and its clients derive from a
-- repository and a git ref. A string is the list of its bytes. SHA-256 and the hex digits of its sum are a
-- parameter, and so is the lower-casing of Unicode text.

pub mod Fragment
pub mod Trim
pub mod Valid
pub mod Refs
mod Tests
use pgoverlay.Base.{
  ℕ, zero, suc, ◌+◌, ◌-◌, ◌≤◌, Bool, true, false, not, ◌&&◌, ◌||◌, ◌≡◌, List, [], ◌∷◌, ◌++◌, ltb,
  leb, nat_eq, if◌then◌else◌, length, take, reverse, Bytes, is_upper, is_alnum,
}

abbrev pub dash : ℕ
dash = 45

abbrev pub max_branch_name_len : ℕ
max_branch_name_len = 41

abbrev pub repo_key_len : ℕ
repo_key_len = 6

abbrev pub ref_hash_len : ℕ
ref_hash_len = 6

-- "gh-"
abbrev pub github_branch_prefix : Bytes
github_branch_prefix = 103 ∷ 104 ∷ 45 ∷ []

-- "pr-"
abbrev pub pr_infix : Bytes
pr_infix = 112 ∷ 114 ∷ 45 ∷ []

abbrev pub fold_case : ℕ → ℕ
fold_case c = if is_upper c then c + 32 else c

abbrev some_written : Bytes → Bool
some_written [] = false
some_written (c ∷ cs) = true

-- The loop of sanitize: the bytes written so far, last first, and whether a dash is due.
unfoldable pub sanitize_loop : Bytes → Bool → Bytes → Bytes
sanitize_loop out due [] = out
sanitize_loop out due (c ∷ rest) =
    let b = fold_case c in
    sanitize_loop
      (if is_alnum b then (if due && some_written out then b ∷ dash ∷ out else b ∷ out) else out)
      (not (is_alnum b)) rest

-- strings.TrimRight(s, "-"), on the reversed bytes
unfoldable pub trim_dashes : Bytes → Bytes
trim_dashes [] = []
trim_dashes (c ∷ rest) =
    let shorter = trim_dashes rest in if nat_eq c dash then shorter else c ∷ rest

unfoldable pub trim_right : Bytes → Bytes
unfolding trim_dashes
trim_right s = reverse (trim_dashes (reverse s))

unfoldable pub cut : ℕ → Bytes → Bytes
unfolding trim_right
cut max_len s = if ltb 0 max_len && ltb max_len (length s) then trim_right (take max_len s) else s

-- sanitize
unfoldable pub sanitize : Bytes → ℕ → Bytes
unfolding cut
sanitize ref max_len = cut max_len (reverse (sanitize_loop [] false ref))

-- SanitizeRef
unfoldable pub sanitize_ref : Bytes → Bytes
unfolding sanitize
sanitize_ref ref = sanitize ref max_branch_name_len

-- hex.EncodeToString of the SHA-256 of a string, and strings.ToLower
module _ (sha256_hex : Bytes → Bytes) (to_lower : Bytes → Bytes) where
  unfoldable pub short_hash : Bytes → ℕ → Bytes
  short_hash s n = take n (sha256_hex s)

  -- RepoKey
  unfoldable pub repo_key : Bytes → Bytes
  repo_key repo = short_hash (to_lower repo) repo_key_len

  unfoldable pub repo_prefix : Bytes → Bytes
  repo_prefix repo = github_branch_prefix ++ (repo_key repo ++ dash ∷ [])

  -- PRBranchName, on the decimal digits of the number
  unfoldable pub pr_branch_name : Bytes → Bytes → Bytes
  pr_branch_name repo pr = repo_prefix repo ++ (pr_infix ++ pr)

  unfoldable pub shortened : Bytes → ℕ → Bytes → Bytes
  shortened ref budget s =
      if ltb budget (length s)
      then trim_right (take (budget - ref_hash_len - 1) s) ++ dash ∷ short_hash ref ref_hash_len
      else s

  -- RefBranchName
  unfoldable pub ref_branch_name : Bytes → Bytes → Bytes
  ref_branch_name repo ref =
      let s = sanitize ref 0 in
      let prefix = repo_prefix repo in
      if nat_eq (length s) 0
      then []
      else prefix ++ shortened ref (max_branch_name_len - length prefix) s
