-- ===== src/Tests/Sample.antt =====
-- A runtime at which the tests run: a quoting that shifts its units, unary decimals, and the text
-- itself for a digest. It meets the laws that the theorems rely on.
use mr_robot.Common.{ℕ, zero, suc, ◌+◌, ◌≡◌, refl, ap, some, [], ◌∷◌, ◌++◌, arith}
use mr_robot.Common.Int.{ℤ, pos, negsuc}
use mr_robot.Common.Text.{Text}
use mr_robot.Events.Canonical.{Js, JsLaws}
use mr_robot.Events.Store.{Runtime}

shifted : Text → Text
shifted [] = b'"' ∷ []
shifted (u ∷ t) = (u + 35) ∷ shifted t

strokes : ℕ → Text
strokes zero = []
strokes (suc n) = b'1' ∷ strokes n

unary : ℤ → Text
unfolding strokes
unary (pos n) = strokes n
unary (negsuc n) = b'-' ∷ strokes n

unfoldable pub js : Js
unfolding shifted unary
js = record { stringify = λ s. b'"' ∷ shifted s; decimal = unary; sha256 = λ t. t }

first : Text → ℕ
first [] = 0
first (u ∷ t) = u

shifted_delimits : (s t u v : Text) → shifted s ++ u ≡ shifted t ++ v → (s ≡ t) × (u ≡ v)
unfolding shifted first
shifted_delimits [] [] u v e = (refl, cc)
shifted_delimits [] (b ∷ t) u v e = absurd (omega (arith, ap first e))
shifted_delimits (a ∷ s) [] u v e = absurd (omega (arith, ap first e))
shifted_delimits (a ∷ s) (b ∷ t) u v e =
    let (same, rest) = shifted_delimits s t u v (cc) in
    let unit : a ≡ b = omega (arith, ap first e) in (cc, rest)

strokes_delimits :
    (n m : ℕ) (u v : Text) → strokes n ++ b',' ∷ u ≡ strokes m ++ b',' ∷ v → (n ≡ m) × (u ≡ v)
unfolding strokes first
strokes_delimits zero zero u v e = (refl, cc)
strokes_delimits zero (suc m) u v e = absurd (omega (arith, ap first e))
strokes_delimits (suc n) zero u v e = absurd (omega (arith, ap first e))
strokes_delimits (suc n) (suc m) u v e =
    let (same, rest) = strokes_delimits n m u v (cc) in (ap suc same, rest)

unary_delimits :
    (a b : ℤ) (u v : Text) → unary a ++ b',' ∷ u ≡ unary b ++ b',' ∷ v → (a ≡ b) × (u ≡ v)
unfolding unary first
unary_delimits (pos n) (pos m) u v e =
    let (same, rest) = strokes_delimits n m u v e in (ap pos same, rest)
unary_delimits (negsuc n) (negsuc m) u v e =
    let (same, rest) = strokes_delimits n m u v (cc) in (ap negsuc same, rest)
unary_delimits (pos zero) (negsuc m) u v e = absurd (omega (arith, ap first e))
unary_delimits (pos (suc n)) (negsuc m) u v e = absurd (omega (arith, ap first e))
unary_delimits (negsuc n) (pos zero) u v e = absurd (omega (arith, ap first e))
unary_delimits (negsuc n) (pos (suc m)) u v e = absurd (omega (arith, ap first e))

pub laws : JsLaws js
unfolding js
laws = record {
  stringify_quoted = λ s. (shifted s, refl);
  stringify_delimits = λ s t u v e. shifted_delimits s t u v (cc e);
  decimal_delimits = unary_delimits;
  sha256_collision_free = λ s t e. e;
}

-- zod passes every payload, and no string holds a credential.
unfoldable pub runtime : Runtime
unfolding js
runtime = record { js = js; parse = λ type payload. some payload; redact = λ t. t }
