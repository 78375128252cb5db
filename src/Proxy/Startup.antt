-- ===== src/Proxy/Startup.antt =====
-- internal/pgproxy/startup.go: one packet of the startup phase, read from the bytes that are left of the
-- connection, and the split of a routed database name.
use pgoverlay.Base.{
  ℕ, suc, ◌+◌, ◌-◌, ◌*◌, ◌&&◌, ◌||◌, Option, none, some, [], ◌∷◌, ltb, leb, nat_eq, if◌then◌else◌,
  length, take, drop, Bytes,
}

-- What a read gives: a packet with its code and the bytes after it, or why there is none. A connection
-- that ends before the first byte of a read gives EOF, one that ends in the middle an unexpected EOF.
pub data Frame : Type 0 where
  packet : (code : ℕ) → (payload : Bytes) → (rest : Bytes) → Frame
  eof unexpected_eof invalid_length : Frame

abbrev pub be32 : ℕ → ℕ → ℕ → ℕ → ℕ
be32 a b c d = a * 16777216 + b * 65536 + c * 256 + d

abbrev pub min_startup_packet_len : ℕ
min_startup_packet_len = 4

abbrev pub max_startup_packet_len : ℕ
max_startup_packet_len = 10000

-- int(int32(w)) - 4, none where it is negative
abbrev pub size_of : ℕ → Option ℕ
size_of w = if ltb w 2147483648 && leb 4 w then some (w - 4) else none

abbrev pub code_of : Bytes → ℕ
code_of (a ∷ b ∷ c ∷ d ∷ _) = be32 a b c d
code_of _ = 0

abbrev pub cut_short : Bytes → Frame
cut_short [] = eof
cut_short (_ ∷ _) = unexpected_eof

abbrev pub read_payload : Option ℕ → Bytes → Frame
read_payload none input = invalid_length
read_payload (some size) input =
    if ltb size min_startup_packet_len || ltb max_startup_packet_len size
    then invalid_length
    else if ltb (length input) size
    then cut_short input
    else packet (code_of (take size input)) (take size input) (drop size input)

unfoldable pub read_startup_frame : Bytes → Frame
read_startup_frame (a ∷ b ∷ c ∷ d ∷ input) = read_payload (size_of (be32 a b c d)) input
read_startup_frame input = cut_short input

-- strings.LastIndexByte(db, '@')
abbrev pub at_sign : ℕ
at_sign = 64

abbrev pub later_or : Option ℕ → Option ℕ → Option ℕ
later_or (some i) here = some (suc i)
later_or none here = here

unfoldable pub last_index : Bytes → Option ℕ
last_index [] = none
last_index (c ∷ rest) = later_or (last_index rest) (if nat_eq c at_sign then some 0 else none)

abbrev pub split_at : Bytes → Option ℕ → Option (Bytes × Bytes)
split_at db none = none
split_at db (some i) = some (take i db, drop (i + 1) db)

unfoldable pub split_database : Bytes → Option (Bytes × Bytes)
unfolding last_index
split_database db = split_at db (last_index db)
