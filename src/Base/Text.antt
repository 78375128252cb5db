-- ===== src/Base/Text.antt =====
-- Byte strings: the bytes that the byte-wise code of the source walks over. A Go string is a sequence of
-- bytes; here a byte is a number, and the code keeps every byte that it writes below 256.
use Prim.Native.Nat.{ℕ}
use mathlib.Core.Bool.{Bool, true, false, ◌&&◌, ◌||◌}
use mathlib.Core.List.{List, [], ◌∷◌}
use pgoverlay.Base.Tests.{nat_eq, leb}

abbrev pub Bytes : Type 0
Bytes = List ℕ

abbrev pub is_lower : ℕ → Bool
is_lower c = leb 97 c && leb c 122

abbrev pub is_upper : ℕ → Bool
is_upper c = leb 65 c && leb c 90

abbrev pub is_digit : ℕ → Bool
is_digit c = leb 48 c && leb c 57

-- the class [a-z0-9]
abbrev pub is_alnum : ℕ → Bool
is_alnum c = is_lower c || is_digit c

abbrev pub every : (ℕ → Bool) → Bytes → Bool
every p [] = true
every p (c ∷ cs) = p c && every p cs

unfoldable pub same_bytes : Bytes → Bytes → Bool
same_bytes [] [] = true
same_bytes (a ∷ s) (b ∷ t) = nat_eq a b && same_bytes s t
same_bytes _ _ = false
