-- ===== src/Proxy/Follows.antt =====
-- The cancel map follows the live sessions through every sequence of starts and ends.
use mathlib.Core.Path.{subst}
use pgoverlay.Base.{
  same_bytes_refl, same_bytes_sound, ◌≡◌, ◌≢◌, ◌↔◌, some, refl, sym, ap, ◌∙◌, inl, inr, List, [],
  ◌∷◌, ◌++◌, String, All, All-delete, Bytes, same_bytes, Bool-cases,
}
use pgoverlay.Proxy.Cancel.{
  CancelMap, addrs, put, delete, add, without_first, remove, sole, lookup, has_key, store,
}
use pgoverlay.Proxy.Sessions.{
  Event, started, ended, track, end_session, live_sessions, holders, holders-started, holders-ended,
  holders-ended_other, addrs-put_self, addrs-put_other, addrs-store_self, addrs-store_other,
}

append_nil : (xs : List String) → xs ++ [] ≡ xs
append_nil [] = refl
append_nil (x ∷ xs) = ap (λ r. x ∷ r) (append_nil xs)

-- The map holds for each key the addresses of the live sessions with that key.
abbrev Follows : CancelMap → List (Bytes × String) → Type 0
Follows m live = (key : Bytes) → addrs key m ≡ holders key live

add_self :
    (k : Bytes) (a : String) (m : CancelMap) (live : List (Bytes × String))
    → Follows m live
    → addrs k (add k a m) ≡ holders k (live ++ (k, a) ∷ [])
unfolding add
add_self k a m live follows =
    addrs-put_self k (addrs k m ++ a ∷ []) m
    ∙ ap (λ r. r ++ a ∷ []) (follows k)
    ∙ sym (holders-started k k a live ∙ rw (same_bytes_refl k) refl)

remove_self :
    (k : Bytes) (a : String) (m : CancelMap) (live : List (Bytes × String))
    → Follows m live
    → addrs k (remove k a m) ≡ holders k (end_session k a live)
unfolding remove
remove_self k a m live follows =
    addrs-store_self k (without_first a (addrs k m)) m
    ∙ ap (without_first a) (follows k)
    ∙ sym (holders-ended k a live)

add-Follows :
    (k : Bytes) (a : String) (m : CancelMap) (live : List (Bytes × String))
    → Follows m live
    → Follows (add k a m) (live ++ (k, a) ∷ [])
unfolding add
add-Follows k a m live follows key = elim (Bool-cases (same_bytes k key)) [
  | inl e ↦
      subst (λ j. addrs key (add j a m) ≡ holders key (live ++ (j, a) ∷ []))
        (sym (same_bytes_sound k key e)) (add_self key a m live follows)
  | inr e ↦
      addrs-put_other key k (addrs k m ++ a ∷ []) m e
      ∙ follows key
      ∙ sym (holders-started key k a live ∙ rw e (append_nil (holders key live)))
]

remove-Follows :
    (k : Bytes) (a : String) (m : CancelMap) (live : List (Bytes × String))
    → Follows m live
    → Follows (remove k a m) (end_session k a live)
unfolding remove
remove-Follows k a m live follows key = elim (Bool-cases (same_bytes k key)) [
  | inl e ↦
      subst (λ j. addrs key (remove j a m) ≡ holders key (end_session j a live))
        (sym (same_bytes_sound k key e)) (remove_self key a m live follows)
  | inr e ↦
      addrs-store_other key k (without_first a (addrs k m)) m e
      ∙ follows key
      ∙ sym (holders-ended_other key k a live e)
]

track-Follows :
    (m : CancelMap) (live : List (Bytes × String)) (events : List Event)
    → Follows m live
    → Follows (track m events) (live_sessions live events)
unfolding track live_sessions
track-Follows m live [] follows = follows
track-Follows m live (started k a ∷ events) follows =
    track-Follows (add k a m) (live ++ (k, a) ∷ []) events (add-Follows k a m live follows)
track-Follows m live (ended k a ∷ events) follows =
    track-Follows (remove k a m) (end_session k a live) events (remove-Follows k a m live follows)

sole_iff : (xs : List String) (a : String) → (sole xs ≡ some a) ↔ (xs ≡ a ∷ [])
sole_iff [] a = ((λ e. cc), (λ e. cc))
sole_iff (x ∷ []) a = ((λ e. cc), (λ e. cc))
sole_iff (x ∷ y ∷ rest) a = ((λ e. cc), (λ e. cc))

-- Whatever sessions start and end, a cancel key leads to a backend exactly when there is one live session
-- that holds it, with that backend: a key that no live session or more than one holds leads nowhere.
pub lookup-live_sessions :
    (events : List Event) (key : Bytes) (backend : String)
    → (lookup key (track [] events) ≡ some backend)
      ↔ (holders key (live_sessions [] events) ≡ backend ∷ [])
unfolding lookup addrs holders
lookup-live_sessions events key backend =
    rw (track-Follows [] [] events (λ k. refl) key)
      (sole_iff (holders key (live_sessions [] events)) backend)

abbrev IsHeld : Bytes × List String → Type 0
IsHeld entry = entry.1 ≢ []

held_last : (xs : List String) (a : String) → xs ++ a ∷ [] ≢ []
held_last [] a e = cc
held_last (x ∷ xs) a e = cc

delete-IsHeld : (k : Bytes) (m : CancelMap) → All IsHeld m → All IsHeld (delete k m)
unfolding delete
delete-IsHeld k m h = All-delete IsHeld IsHeld (has_key k) (λ x held _. held) m h

store-IsHeld :
    (k : Bytes) (v : List String) (m : CancelMap) → All IsHeld m → All IsHeld (store k v m)
unfolding put delete
store-IsHeld k [] m h = delete-IsHeld k m h
store-IsHeld k (a ∷ v) m h = ((λ e. cc), delete-IsHeld k m h)

add-IsHeld : (k : Bytes) (a : String) (m : CancelMap) → All IsHeld m → All IsHeld (add k a m)
unfolding add put delete
add-IsHeld k a m h = (held_last (addrs k m) a, delete-IsHeld k m h)

track-IsHeld : (m : CancelMap) (events : List Event) → All IsHeld m → All IsHeld (track m events)
unfolding track remove
track-IsHeld m [] h = h
track-IsHeld m (started k a ∷ events) h = track-IsHeld (add k a m) events (add-IsHeld k a m h)
track-IsHeld m (ended k a ∷ events) h =
    track-IsHeld (remove k a m) events (store-IsHeld k (without_first a (addrs k m)) m h)

held_by_none : (m : CancelMap) → All IsHeld m → ((key : Bytes) → addrs key m ≡ []) → m ≡ []
unfolding addrs
held_by_none [] h none_left = refl
held_by_none ((k, v) ∷ m) h none_left =
    absurd (h.0 (sym (rw (same_bytes_refl k) refl) ∙ none_left k))

-- When every session has ended, the map is empty: no entry outlives the sessions that made it.
pub track_empties : (events : List Event) → live_sessions [] events ≡ [] → track [] events ≡ []
unfolding holders addrs
track_empties events ended_all =
    held_by_none (track [] events) (track-IsHeld [] events tt)
      (λ key. track-Follows [] [] events (λ k. refl) key ∙ ap (holders key) ended_all)
