-- ===== src/Names/Tests.antt =====
-- The names of a pull request and of a ref, with a constant in place of the hash.
use pgoverlay.Base.{true, ◌≡◌, refl, ◌⊎◌, [], ◌∷◌, ◌++◌, arith, Bytes}
use pgoverlay.Engine.Names.{valid_name}
use pgoverlay.Names.{sanitize_ref, ref_branch_name, pr_branch_name, sanitize, sanitize_loop, cut}
use pgoverlay.Names.Valid.{sanitize_ref-valid_name}
use pgoverlay.Names.Refs.{IsHexSum, ref_branch_name-valid_name, pr_branch_name-valid_name}

-- "Feat//Log_"
abbrev feature : Bytes
feature = 70 ∷ 101 ∷ 97 ∷ 116 ∷ 47 ∷ 47 ∷ 76 ∷ 111 ∷ 103 ∷ 95 ∷ []

-- "feat-log"
sanitize_ref-feature : sanitize_ref feature ≡ 102 ∷ 101 ∷ 97 ∷ 116 ∷ 45 ∷ 108 ∷ 111 ∷ 103 ∷ []
unfolding sanitize_ref sanitize sanitize_loop cut
sanitize_ref-feature = refl

abbrev eight : Bytes
eight = 97 ∷ 98 ∷ 99 ∷ 48 ∷ 49 ∷ 50 ∷ 51 ∷ 102 ∷ []

abbrev hash : Bytes → Bytes
hash s = eight ++ (eight ++ (eight ++ (eight ++ (eight ++ (eight ++ (eight ++ eight))))))

abbrev lower : Bytes → Bytes
lower s = s

hash-IsHexSum : IsHexSum hash
hash-IsHexSum s = (refl, refl)

sanitize_ref-valid_name_example :
    (sanitize_ref feature ≡ []) ⊎ (valid_name (sanitize_ref feature) ≡ true)
sanitize_ref-valid_name_example = sanitize_ref-valid_name feature

ref_branch_name-valid_name_example :
    (ref_branch_name hash lower eight feature ≡ [])
    ⊎ (valid_name (ref_branch_name hash lower eight feature) ≡ true)
ref_branch_name-valid_name_example =
    ref_branch_name-valid_name hash lower hash-IsHexSum eight feature

-- "12"
abbrev number : Bytes
number = 49 ∷ 50 ∷ []

pr_branch_name-valid_name_example : valid_name (pr_branch_name hash lower eight number) ≡ true
pr_branch_name-valid_name_example =
    pr_branch_name-valid_name hash lower hash-IsHexSum eight number refl (omega arith) (omega arith)
