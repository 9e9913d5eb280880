-- ===== src/Runtime/Cron.antt =====
-- runtime/cron.ts: cron expressions, parsed and matched. `none` is a thrown ConfigError, without its
-- message. A set is the list of what was added to it.
pub mod Bounds
pub mod Match
pub mod Days
pub mod Steps
pub mod Key
pub mod Distinct
use mr_robot.Common.{
  ℕ, zero, suc, ◌+◌, ◌-◌, ◌*◌, Bool, true, false, not, ◌&&◌, ◌||◌, Option, none, some, List, [],
  ◌∷◌, ◌++◌, map, leb, ltb, ◌==◌ as nat_eq, if◌then◌else◌,
}
use mr_robot.Common.Partial.{◌>>=◌}
use mr_robot.Common.Text.{Text, text, ◌==◌}

pub record FieldSpec : Type 0 where
  pub min : ℕ
  pub max : ℕ

abbrev pub minute_field : FieldSpec
minute_field = record { min = 0; max = 59 }

abbrev pub hour_field : FieldSpec
hour_field = record { min = 0; max = 23 }

abbrev pub day_of_month_field : FieldSpec
day_of_month_field = record { min = 1; max = 31 }

abbrev pub month_field : FieldSpec
month_field = record { min = 1; max = 12 }

abbrev pub day_of_week_field : FieldSpec
day_of_week_field = record { min = 0; max = 7 }

pub record CronExpr : Type 0 where
  pub source : Text
  pub minute : List ℕ
  pub hour : List ℕ
  pub day_of_month : List ℕ
  pub month : List ℕ
  pub day_of_week : List ℕ
  pub both_day_fields_restricted : Bool

-- `set.has(n)`
unfoldable pub selects : List ℕ → ℕ → Bool
selects [] n = false
selects (v ∷ vs) n = nat_eq v n || selects vs n

unfoldable pub is_digit : ℕ → Bool
is_digit u = leb b'0' u && leb u b'9'

unfoldable pub all_digits : Text → Bool
all_digits [] = true
all_digits (u ∷ t) = is_digit u && all_digits t

unfoldable pub value_from : ℕ → Text → ℕ
value_from n [] = n
value_from n (u ∷ t) = value_from (n * 10 + (u - b'0')) t

-- `/^\d+$/` and `Number`
unfoldable pub whole_number : Text → Option ℕ
whole_number [] = none
whole_number (u ∷ t) = if all_digits (u ∷ t) then some (value_from 0 (u ∷ t)) else none

unfoldable pub number_in : Text → FieldSpec → Option ℕ
number_in t spec = do n ← whole_number t; if ltb n spec.min || ltb spec.max n then none else some n

-- The text before the first such unit and the text after it.
unfoldable pub cut : ℕ → Text → Option (Text × Text)
cut c [] = none
cut c (u ∷ t) =
    let rest = cut c t in
    if nat_eq u c then some ([], t) else (do (before, after) ← rest; some (u ∷ before, after))

-- `for (let v = lo; v <= hi; v += step)`, with fuel for the values that are left.
unfoldable pub steps_from : ℕ → ℕ → ℕ → ℕ → List ℕ
steps_from zero v hi step = []
steps_from (suc fuel) v hi step =
    let rest = steps_from fuel (v + step) hi step in if leb v hi then v ∷ rest else []

-- The step is positive, so that a value for each number from `lo` to `hi` is enough.
unfoldable pub steps : ℕ → ℕ → ℕ → List ℕ
steps lo hi step = steps_from (suc (hi - lo)) lo hi step

unfoldable pub parse_step : Option (Text × Text) → Option ℕ
parse_step none = some 1
parse_step (some (body, step_text)) = do
  n ← whole_number step_text
  if nat_eq n 0 then none else some n

unfoldable pub body_of : Text → Option (Text × Text) → Text
body_of term none = term
body_of term (some (body, step_text)) = body

-- One value, which takes no step.
unfoldable pub parse_single : Text → FieldSpec → Bool → Option (ℕ × ℕ)
parse_single body spec stepped = do n ← number_in body spec; if stepped then none else some (n, n)

-- The end points of a body. A dash that comes first separates nothing.
unfoldable pub parse_range : Text → FieldSpec → Bool → Option (ℕ × ℕ)
parse_range body spec stepped =
    if body == text "*" then some (spec.min, spec.max) else elim (cut b'-' body) [
      | none ↦ parse_single body spec stepped
      | some ([], after) ↦ parse_single body spec stepped
      | some (u ∷ before, after) ↦ do
        lo ← number_in (u ∷ before) spec
        hi ← number_in after spec
        if ltb hi lo then none else some (lo, hi)
    ]

unfoldable pub is_stepped : Option (Text × Text) → Bool
is_stepped none = false
is_stepped (some p) = true

unfoldable pub parse_term : Text → FieldSpec → Option (List ℕ)
parse_term [] spec = none
parse_term (u ∷ t) spec = do
  step ← parse_step (cut b'/' (u ∷ t))
  (lo, hi) ← parse_range (body_of (u ∷ t) (cut b'/' (u ∷ t))) spec (is_stepped (cut b'/' (u ∷ t)))
  some (steps lo hi step)

-- A unit put before the first of the parts.
unfoldable pub put : ℕ → List Text → List Text
put u [] = (u ∷ []) ∷ []
put u (part ∷ parts) = (u ∷ part) ∷ parts

-- `text.split(',')`
unfoldable pub split_commas : Text → List Text
split_commas [] = [] ∷ []
split_commas (u ∷ t) = let rest = split_commas t in if nat_eq u b',' then [] ∷ rest else put u rest

unfoldable pub parse_terms : List Text → FieldSpec → Option (List ℕ)
parse_terms [] spec = some []
parse_terms (term ∷ terms) spec = do
  vs ← parse_term term spec
  ws ← parse_terms terms spec
  some (vs ++ ws)

unfoldable pub parse_field : Text → FieldSpec → Option (List ℕ)
parse_field t spec = do
  vs ← parse_terms (split_commas t) spec
  elim vs [ [] ↦ none | v ∷ rest ↦ some (v ∷ rest) ]
