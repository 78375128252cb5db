-- ===== src/Proxy/Tests.antt =====
-- Cancel keys, packets and routed names on small inputs.
use pgoverlay.Base.{
  ◌≤◌, ◌≡◌, ◌↔◌, refl, some, List, [], ◌∷◌, ◌++◌, arith, length, take, delete_where, same_bytes,
  Bytes,
}
use pgoverlay.Proxy.Cancel.{cancel_frame, lookup, addrs, add, remove, put, delete, without_first}
use pgoverlay.Proxy.Sessions.{Event, started, ended, track, live_sessions, end_session, holders}
use pgoverlay.Proxy.Follows.{lookup-live_sessions, track_empties}
use pgoverlay.Proxy.Startup.{packet, code_of, size_of, read_startup_frame, split_database, at_sign}
use pgoverlay.Proxy.Split.{IsLast, split_database-IsLast, split_database-append}
use pgoverlay.Proxy.Frames.{read_startup_frame-cancel_frame, frame_is_exact}

abbrev key : Bytes
key = 0 ∷ 0 ∷ 0 ∷ 7 ∷ 1 ∷ 2 ∷ 3 ∷ 4 ∷ []

-- two branches hand out one key, and the first session ends
abbrev clash : List Event
clash = started key "a:1" ∷ started key "b:2" ∷ ended key "a:1" ∷ []

lookup-clash : lookup key (track [] clash) ≡ some "b:2"
unfolding lookup track addrs add remove put delete without_first delete_where same_bytes
lookup-clash = refl

lookup-live_sessions_example :
    (lookup key (track [] clash) ≡ some "a:1") ↔ (holders key (live_sessions [] clash) ≡ "a:1" ∷ [])
lookup-live_sessions_example = lookup-live_sessions clash key "a:1"

abbrev over : List Event
over = started key "a:1" ∷ started key "b:2" ∷ ended key "a:1" ∷ ended key "b:2" ∷ []

over-live : live_sessions [] over ≡ []
unfolding live_sessions end_session same_bytes
over-live = refl

track_empties_example : track [] over ≡ []
track_empties_example = track_empties over over-live

-- the code 80877102 and a key
abbrev request : Bytes
request = 4 ∷ 210 ∷ 22 ∷ 46 ∷ key

read_startup_frame-cancel_frame_example :
    read_startup_frame (cancel_frame request ++ 1 ∷ []) ≡ packet (code_of request) request (1 ∷ [])
read_startup_frame-cancel_frame_example =
    read_startup_frame-cancel_frame request (1 ∷ []) (omega arith) (omega arith)

abbrev input : Bytes
input = 0 ∷ 0 ∷ 0 ∷ 8 ∷ 4 ∷ 210 ∷ 22 ∷ 47 ∷ 5 ∷ []

abbrev ssl_request : Bytes
ssl_request = 4 ∷ 210 ∷ 22 ∷ 47 ∷ []

input_packet : read_startup_frame input ≡ packet 80877103 ssl_request (5 ∷ [])
unfolding read_startup_frame
input_packet = refl

frame_is_exact_example :
    (take 4 input ++ (ssl_request ++ 5 ∷ []) ≡ input)
    × (size_of (code_of input) ≡ some (length ssl_request))
    × (4 ≤ length ssl_request)
    × (length ssl_request ≤ 10000)
    × (80877103 ≡ code_of ssl_request)
frame_is_exact_example = frame_is_exact input ssl_request (5 ∷ []) 80877103 input_packet

-- "a@b@pr"
abbrev routed : Bytes
routed = 97 ∷ 64 ∷ 98 ∷ 64 ∷ 112 ∷ 114 ∷ []

split_database-IsLast_example : IsLast routed (split_database routed)
split_database-IsLast_example = split_database-IsLast routed

split_database-append_example :
    split_database ((97 ∷ 64 ∷ 98 ∷ []) ++ at_sign ∷ 112 ∷ 114 ∷ [])
    ≡ some (97 ∷ 64 ∷ 98 ∷ [], 112 ∷ 114 ∷ [])
split_database-append_example = split_database-append (97 ∷ 64 ∷ 98 ∷ []) (112 ∷ 114 ∷ []) refl
