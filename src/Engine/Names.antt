-- ===== src/Engine/Names.antt =====
-- internal/engine/saga.go: the names that the engine accepts, as lists of bytes.
use Prim.Native.Char.{code}
use pgoverlay.Base.{
  ℕ, Bool, false, ◌&&◌, ◌||◌, [], ◌∷◌, String, leb, nat_eq, length, Bytes, is_alnum, every,
}

-- "-" or a lowercase letter or a digit
abbrev pub name_byte : ℕ → Bool
name_byte c = is_alnum c || nat_eq c 45

-- validateName: ^[a-z0-9][a-z0-9-]{0,40}$
unfoldable pub valid_name : Bytes → Bool
valid_name [] = false
valid_name (c ∷ rest) = is_alnum c && (every name_byte rest && leb (length rest) 40)

-- The code points of a text: its bytes, if it is ASCII.
abbrev pub codes : String → Bytes
codes String.[] = []
codes (String.◌∷◌ c s) = code c ∷ codes s
