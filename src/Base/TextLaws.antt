-- ===== src/Base/TextLaws.antt =====
-- The test for equal bytes decides equality.
use mathlib.Core.Path.{◌≡◌, refl}
use mathlib.Core.Bool.{true}
use mathlib.Core.List.{[], ◌∷◌}
use native.Mathlib.Omega.{arith}
use pgoverlay.Base.Tests.{nat_eq_iff}
use pgoverlay.Base.Text.{Bytes, same_bytes}

pub same_bytes_refl : (s : Bytes) → same_bytes s s ≡ true
unfolding same_bytes
same_bytes_refl [] = refl
same_bytes_refl (c ∷ s) = ground (arith, nat_eq_iff c c, same_bytes_refl s)

pub same_bytes_sound : (s t : Bytes) → same_bytes s t ≡ true → s ≡ t
unfolding same_bytes
same_bytes_sound [] [] h = refl
same_bytes_sound [] (d ∷ t) h = absurd (cc)
same_bytes_sound (c ∷ s) [] h = absurd (cc)
same_bytes_sound (c ∷ s) (d ∷ t) h = ground (arith, h, nat_eq_iff c d, same_bytes_sound s t)
