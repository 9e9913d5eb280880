-- ===== src/Common/Text.antt =====
-- JavaScript strings: lists of UTF-16 code units. A literal is written `text "..."`, which gives the
-- units of an ASCII literal.
use Prim.Native.Char.{code}
use Prim.Native.Nat.{ℕ, ◌+◌}
use Prim.Native.String.{String}
use mathlib.Core.Path.{◌≡◌, refl}
use mathlib.Core.Logic.{◌↔◌}
use mathlib.Core.Bool.{Bool, true, false, ◌&&◌}
use mathlib.Core.List.{List, [], ◌∷◌}
use native.Mathlib.Omega.{arith}
use mr_robot.Common.Tests.{◌==◌ as nat_eq, leb, if◌then◌else◌}

abbrev pub Text : Type 0
Text = List ℕ

abbrev pub text : String → Text
text String.[] = []
text (String.◌∷◌ c s) = code c ∷ text s

infix 50 ◌==◌
unfoldable pub ◌==◌ : Text → Text → Bool
◌==◌ [] [] = true
◌==◌ (a ∷ s) (b ∷ t) = nat_eq a b && s == t
◌==◌ s t = false

pub eq_of : (s t : Text) → (s == t) ≡ true → s ≡ t
unfolding ◌==◌
eq_of [] [] h = refl
eq_of (a ∷ s) (b ∷ t) h = ground (arith, eq_of s t)
eq_of [] (b ∷ t) h = ground arith
eq_of (a ∷ s) [] h = ground arith

pub eq_refl : (s : Text) → (s == s) ≡ true
unfolding ◌==◌
eq_refl [] = refl
eq_refl (a ∷ s) = ground (arith, eq_refl s)

pub eq_iff : (s t : Text) → ((s == t) ≡ true) ↔ (s ≡ t)
eq_iff s t = (eq_of s t, λ e. rw e (eq_refl t))

unfoldable pub is_prefix : Text → Text → Bool
is_prefix [] t = true
is_prefix (a ∷ s) [] = false
is_prefix (a ∷ s) (b ∷ t) = nat_eq a b && is_prefix s t

-- ASCII letters in lower case, as a regular expression without `u` folds them.
unfoldable pub lower : ℕ → ℕ
lower u = if leb b'A' u && leb u b'Z' then u + 32 else u
