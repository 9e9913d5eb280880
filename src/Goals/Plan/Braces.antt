-- ===== src/Goals/Plan/Braces.antt =====
-- The scan of extractJson in goals/plan.ts finds an object whose braces balance outside its strings.
use mr_robot.Common.{
  ℕ, suc, ◌≡◌, refl, sym, ap, ◌∙◌, true, false, Option, none, some, [], ◌∷◌, ◌++◌, arith, ◌==◌,
  ==_iff,
}
use mathlib.Core.List.{append_assoc}
use mr_robot.Common.Text.{Text}
use mr_robot.Common.Map.{Eq, has}
use mr_robot.Goals.Plan.Extract.{Scan, step_over, closes, scan, from_brace, fenced, extract_json}

-- What stands between the quotes of a string.
pub data IsQuoted : Text → Type 0 where
  ended : IsQuoted []
  plain :
      {t : Text} (u : ℕ)
      → (u == b'\\') ≡ false
      → (u == b'"') ≡ false
      → IsQuoted t
      → IsQuoted (u ∷ t)
  escape : {t : Text} (u : ℕ) → IsQuoted t → IsQuoted (b'\\' ∷ u ∷ t)

-- What stands between two braces: strings, blocks in braces that balance, and other units.
pub data IsBalanced : Text → Type 0 where
  ended : IsBalanced []
  plain :
      {t : Text} (u : ℕ)
      → (u == b'\\') ≡ false
      → (u == b'"') ≡ false
      → (u == b'{') ≡ false
      → (u == b'}') ≡ false
      → IsBalanced t
      → IsBalanced (u ∷ t)
  quote : {q t : Text} → IsQuoted q → IsBalanced t → IsBalanced (b'"' ∷ (q ++ b'"' ∷ []) ++ t)
  block : {b t : Text} → IsBalanced b → IsBalanced t → IsBalanced (b'{' ∷ (b ++ b'}' ∷ []) ++ t)

instance abbrev pub unit_eq : Eq ℕ
unit_eq = record { beq = ◌==◌; beq_iff = ==_iff }

abbrev after : Text → Option Text → Option Text
after t none = none
after t (some u) = some (t ++ u)

abbrev within : ℕ → Scan
within n = record { depth = suc n; in_string = false; escaped = false }

abbrev quoted : ℕ → Scan
quoted n = record { depth = suc n; in_string = true; escaped = false }

after-append : (s t : Text) (o : Option Text) → after s (after t o) ≡ after (s ++ t) o
after-append s t none = refl
after-append s t (some u) = ap some (sym (append_assoc s t u))

-- One unit that does not end the scan, and where it leads.
scan_unit :
    (s r : Scan) (u : ℕ) (rest : Text)
    → closes s u ≡ false
    → step_over s u ≡ r
    → scan s (u ∷ rest) ≡ after (u ∷ []) (scan r rest)
unfolding scan
scan_unit s r u rest on is =
    rw on (by_rest (scan (step_over s u) rest) ∙ ap (λ p. after (u ∷ []) (scan p rest)) is)
  where
    by_rest :
        (o : Option Text)
        → elim o as (λ x. Option Text) [ none ↦ none | some t ↦ some (u ∷ t) ] ≡ after (u ∷ []) o
    by_rest none = refl
    by_rest (some t) = refl

-- A unit and then what is scanned already.
scan_unit_then :
    (s r v : Scan) (u : ℕ) (t rest : Text)
    → closes s u ≡ false
    → step_over s u ≡ r
    → scan r (t ++ rest) ≡ after t (scan v rest)
    → scan s (u ∷ t ++ rest) ≡ after (u ∷ t) (scan v rest)
scan_unit_then s r v u t rest on is e =
    scan_unit s r u (t ++ rest) on is
    ∙ ap (after (u ∷ [])) e
    ∙ after-append (u ∷ []) t (scan v rest)

after_none : (o : Option Text) → o ≡ after [] o
after_none none = refl
after_none (some t) = refl

scan_both :
    (s r v : Scan) (a t rest : Text)
    → scan s (a ++ (t ++ rest)) ≡ after a (scan r (t ++ rest))
    → scan r (t ++ rest) ≡ after t (scan v rest)
    → scan s ((a ++ t) ++ rest) ≡ after (a ++ t) (scan v rest)
scan_both s r v a t rest e f =
    ap (scan s) (append_assoc a t rest) ∙ e ∙ ap (after a) f ∙ after-append a t (scan v rest)

scan-IsQuoted :
    {q : Text}
    → IsQuoted q
    → (n : ℕ) (rest : Text)
    → scan (quoted n) ((q ++ b'"' ∷ []) ++ rest) ≡ after (q ++ b'"' ∷ []) (scan (within n) rest)
unfolding closes step_over
scan-IsQuoted ended n rest = scan_unit (quoted n) (within n) b'"' rest refl refl
scan-IsQuoted (plain {t = t} u p q h) n rest =
    scan_unit_then (quoted n) (quoted n) (within n) u (t ++ b'"' ∷ []) rest (ground arith)
      (ground (arith, p, q)) (scan-IsQuoted h n rest)
scan-IsQuoted (escape {t = t} u h) n rest =
    scan_unit_then (quoted n) (record (quoted n) { escaped = true }) (within n) b'\\'
      (u ∷ t ++ b'"' ∷ []) rest refl refl
      (scan_unit_then (record (quoted n) { escaped = true }) (quoted n) (within n) u
        (t ++ b'"' ∷ []) rest refl refl (scan-IsQuoted h n rest))

scan-IsBalanced :
    {t : Text}
    → IsBalanced t
    → (n : ℕ) (rest : Text) → scan (within n) (t ++ rest) ≡ after t (scan (within n) rest)
unfolding closes step_over
scan-IsBalanced ended n rest = after_none (scan (within n) rest)
scan-IsBalanced (plain {t = t} u p q b c h) n rest =
    scan_unit_then (within n) (within n) (within n) u t rest (ground (arith, c))
      (ground (arith, p, q, b, c)) (scan-IsBalanced h n rest)
scan-IsBalanced (quote {q = q} {t = t} hq h) n rest =
    scan_unit_then (within n) (quoted n) (within n) b'"' ((q ++ b'"' ∷ []) ++ t) rest refl refl (
      scan_both (quoted n) (within n) (within n) (q ++ b'"' ∷ []) t rest
        (scan-IsQuoted hq n (t ++ rest)) (scan-IsBalanced h n rest))
scan-IsBalanced (block {b = b} {t = t} hb h) n rest =
    scan_unit_then (within n) (within (suc n)) (within n) b'{' ((b ++ b'}' ∷ []) ++ t) rest refl
      (ground arith)
      (scan_both (within (suc n)) (within n) (within n) (b ++ b'}' ∷ []) t rest
        (scan_both (within (suc n)) (within (suc n)) (within n) b (b'}' ∷ []) (t ++ rest)
          (scan-IsBalanced hb (suc n) (b'}' ∷ t ++ rest))
          (scan_unit (within (suc n)) (within n) b'}' (t ++ rest) (ground arith) (ground arith)))
        (scan-IsBalanced h n rest))

scan-object :
    {b : Text}
    → IsBalanced b
    → (tail : Text)
    → scan (record { depth = 0; in_string = false; escaped = false }) (b'{' ∷ (b ++ b'}' ∷ tail))
      ≡ some (b'{' ∷ (b ++ b'}' ∷ []))
unfolding closes step_over scan
scan-object {b} h tail =
    scan_unit (record { depth = 0; in_string = false; escaped = false }) (within 0) b'{'
      (b ++ b'}' ∷ tail) refl refl
    ∙ ap (after (b'{' ∷ [])) (scan-IsBalanced h 0 (b'}' ∷ tail))

from_brace-prose :
    (prose rest : Text)
    → has b'{' prose ≡ false
    → from_brace (prose ++ b'{' ∷ rest)
      ≡ scan (record { depth = 0; in_string = false; escaped = false }) (b'{' ∷ rest)
unfolding from_brace has
from_brace-prose [] rest h = refl
from_brace-prose (u ∷ prose) rest h = ground (arith, h, from_brace-prose prose rest)

-- In a message that opens no fence, the object that is extracted is the first that opens: all of it and
-- nothing after it, when its braces balance outside its strings, whose escapes are passed over.
pub extraction_finds_object :
    (prose b tail : Text)
    → fenced (prose ++ b'{' ∷ (b ++ b'}' ∷ tail)) ≡ none
    → has b'{' prose ≡ false
    → IsBalanced b
    → extract_json (prose ++ b'{' ∷ (b ++ b'}' ∷ tail)) ≡ some (b'{' ∷ (b ++ b'}' ∷ []))
unfolding extract_json
extraction_finds_object prose b tail free clean h =
    rw (free, extract_json) (from_brace-prose prose (b ++ b'}' ∷ tail) clean ∙ scan-object h tail)
