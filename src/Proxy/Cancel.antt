-- ===== src/Proxy/Cancel.antt =====
-- internal/pgproxy/cancel.go: the map from a cancel key to the backends of the live sessions that hold
-- it. The Go map is a list of entries. A key is the list of its bytes.
use pgoverlay.Base.{
  ℕ, Bool, Option, none, some, List, [], ◌∷◌, ◌++◌, String, ◌==◌, ltb, if◌then◌else◌, length, drop,
  delete_where, Bytes, same_bytes, ◌+◌, ◌/◌, ◌%◌,
}

abbrev pub CancelMap : Type 0
CancelMap = List (Bytes × List String)

-- c.m[key], where a missing key gives no addresses
unfoldable pub addrs : Bytes → CancelMap → List String
addrs key [] = []
addrs key ((k, v) ∷ rest) = if same_bytes k key then v else addrs key rest

abbrev pub has_key : Bytes → Bytes × List String → Bool
has_key key entry = same_bytes entry.0 key

unfoldable pub put : Bytes → List String → CancelMap → CancelMap
put key v m = (key, v) ∷ delete_where (has_key key) m

unfoldable pub delete : Bytes → CancelMap → CancelMap
delete key m = delete_where (has_key key) m

unfoldable pub add : Bytes → String → CancelMap → CancelMap
unfolding put addrs
add key addr m = put key (addrs key m ++ addr ∷ []) m

-- the addresses without the first one that is `addr`
unfoldable pub without_first : String → List String → List String
without_first addr [] = []
without_first addr (a ∷ rest) =
    let later = without_first addr rest in if a == addr then rest else a ∷ later

abbrev pub store : Bytes → List String → CancelMap → CancelMap
store key [] m = delete key m
store key (a ∷ rest) m = put key (a ∷ rest) m

unfoldable pub remove : Bytes → String → CancelMap → CancelMap
unfolding addrs without_first
remove key addr m = store key (without_first addr (addrs key m)) m

abbrev pub sole : List String → Option String
sole [] = none
sole (a ∷ []) = some a
sole (a ∷ b ∷ rest) = none

unfoldable pub lookup : Bytes → CancelMap → Option String
unfolding addrs
lookup key m = sole (addrs key m)

-- registerCancelKey: the session's earlier key, "" for none, and the new one
unfoldable pub register_cancel_key : Bytes → Bytes → String → CancelMap → CancelMap
unfolding add remove
register_cancel_key earlier body addr m =
    add body addr (if same_bytes earlier [] then m else remove earlier addr m)

-- The backend that forwardCancel dials for a request, if any
unfoldable pub forward_target : Bytes → CancelMap → Option String
unfolding lookup
forward_target payload m = if ltb (length payload) 12 then none else lookup (drop 4 payload) m

-- binary.BigEndian.PutUint32
abbrev pub be32_bytes : ℕ → Bytes
be32_bytes n = n / 16777216 % 256 ∷ n / 65536 % 256 ∷ n / 256 % 256 ∷ n % 256 ∷ []

-- The frame that forwardCancel writes to the backend
unfoldable pub cancel_frame : Bytes → Bytes
cancel_frame payload = be32_bytes ((4 + length payload) % 4294967296) ++ payload
