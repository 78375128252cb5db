-- ===== src/Proxy/Sessions.antt =====
-- What the cancel map promises: for each key the live sessions that hold it, in the order of their
-- starts.
use pgoverlay.Base.{
  same_bytes_refl, same_bytes_sound, false, ◌&&◌, ◌≡◌, refl, ap, ◌∙◌, inl, inr, List, [], ◌∷◌, ◌++◌,
  String, ◌==◌, arith, if◌then◌else◌, delete_where, Bytes, same_bytes, Bool-cases,
}
use pgoverlay.Proxy.Cancel.{CancelMap, addrs, put, delete, add, store, without_first, remove}

pub data Event : Type 0 where
  started ended : Bytes → String → Event

unfoldable pub track : CancelMap → List Event → CancelMap
track m [] = m
track m (started key addr ∷ rest) = track (add key addr m) rest
track m (ended key addr ∷ rest) = track (remove key addr m) rest

-- The live sessions themselves: a session that ends takes its earliest entry away.
unfoldable pub end_session : Bytes → String → List (Bytes × String) → List (Bytes × String)
end_session key addr [] = []
end_session key addr ((k, a) ∷ rest) =
    let later = end_session key addr rest in
    if same_bytes k key && a == addr then rest else (k, a) ∷ later

unfoldable pub live_sessions : List (Bytes × String) → List Event → List (Bytes × String)
unfolding end_session
live_sessions live [] = live
live_sessions live (started key addr ∷ rest) = live_sessions (live ++ (key, addr) ∷ []) rest
live_sessions live (ended key addr ∷ rest) = live_sessions (end_session key addr live) rest

unfoldable pub holders : Bytes → List (Bytes × String) → List String
holders key [] = []
holders key ((k, a) ∷ rest) =
    let others = holders key rest in if same_bytes k key then a ∷ others else others

pub holders-started :
    (key k : Bytes) (a : String) (live : List (Bytes × String))
    → holders key (live ++ (k, a) ∷ [])
      ≡ holders key live ++ (if same_bytes k key then a ∷ [] else [])
unfolding holders
holders-started key k a [] = refl
holders-started key k a ((k', b) ∷ live) = elim (Bool-cases (same_bytes k' key)) [
  | inl e ↦ rw e (ap (λ r. b ∷ r) (holders-started key k a live))
  | inr e ↦ rw e (holders-started key k a live)
]

pub holders-ended :
    (key : Bytes) (a : String) (live : List (Bytes × String))
    → holders key (end_session key a live) ≡ without_first a (holders key live)
unfolding holders end_session without_first
holders-ended key a [] = refl
holders-ended key a ((k, b) ∷ live) = elim (Bool-cases (same_bytes k key)) [
  | inr e ↦ rw (e, e) (holders-ended key a live)
  | inl e ↦ elim (Bool-cases (b == a)) [
    | inl f ↦ rw (e, f) refl
    | inr f ↦ rw (e, f) (rw e (ap (λ r. b ∷ r) (holders-ended key a live)))
  ]
]

pub holders-ended_other :
    (key k : Bytes) (a : String) (live : List (Bytes × String))
    → same_bytes k key ≡ false
    → holders key (end_session k a live) ≡ holders key live
unfolding holders end_session
holders-ended_other key k a [] other = refl
holders-ended_other key k a ((k', b) ∷ live) other = elim (Bool-cases (same_bytes k' k && b == a)) [
  | inr e ↦
      rw e
        (ap (λ r. if same_bytes k' key then b ∷ r else r) (holders-ended_other key k a live other))
  | inl e ↦
      let same : k' ≡ k = same_bytes_sound k' k (ground arith) in
      rw e (rw (ap (λ s. same_bytes s key) same ∙ other) refl)
]

addrs-delete_self : (key : Bytes) (m : CancelMap) → addrs key (delete key m) ≡ []
unfolding addrs delete delete_where
addrs-delete_self key [] = refl
addrs-delete_self key ((k, v) ∷ m) = elim (Bool-cases (same_bytes k key)) [
  | inl e ↦ rw e (addrs-delete_self key m)
  | inr e ↦ rw e (rw e (addrs-delete_self key m))
]

addrs-delete_other :
    (key k : Bytes) (m : CancelMap)
    → same_bytes k key ≡ false
    → addrs key (delete k m) ≡ addrs key m
unfolding addrs delete delete_where
addrs-delete_other key k [] other = refl
addrs-delete_other key k ((k', v) ∷ m) other = elim (Bool-cases (same_bytes k' k)) [
  | inr e ↦ rw e (ap (λ r. if same_bytes k' key then v else r) (addrs-delete_other key k m other))
  | inl e ↦
      let same : k' ≡ k = same_bytes_sound k' k e in
      rw e (rw (ap (λ s. same_bytes s key) same ∙ other) (addrs-delete_other key k m other))
]

pub addrs-put_self : (key : Bytes) (v : List String) (m : CancelMap) → addrs key (put key v m) ≡ v
unfolding addrs put
addrs-put_self key v m = rw (same_bytes_refl key) refl

pub addrs-put_other :
    (key k : Bytes) (v : List String) (m : CancelMap)
    → same_bytes k key ≡ false
    → addrs key (put k v m) ≡ addrs key m
unfolding addrs put delete
addrs-put_other key k v m other = rw other (addrs-delete_other key k m other)

pub addrs-store_self :
    (key : Bytes) (v : List String) (m : CancelMap) → addrs key (store key v m) ≡ v
addrs-store_self key [] m = addrs-delete_self key m
addrs-store_self key (a ∷ v) m = addrs-put_self key (a ∷ v) m

pub addrs-store_other :
    (key k : Bytes) (v : List String) (m : CancelMap)
    → same_bytes k key ≡ false
    → addrs key (store k v m) ≡ addrs key m
addrs-store_other key k [] m other = addrs-delete_other key k m other
addrs-store_other key k (a ∷ v) m other = addrs-put_other key k (a ∷ v) m other
