-- ===== src/Runtime/Cron/Bounds.antt =====
-- Which values the terms and fields of runtime/cron.ts select.
use mr_robot.Common.{
  ℕ, zero, suc, ◌+◌, ◌-◌, ◌≤◌, ◌≡◌, ◌≢◌, refl, inl, inr, Bool, true, ◌||◌, some, List, [], ◌∷◌,
  ◌++◌, arith, Option-cases, Bool-cases,
}
use mr_robot.Common.Text.{Text, text, ◌==◌}
use mr_robot.Runtime.Cron.{
  FieldSpec, selects, whole_number, number_in, cut, steps_from, steps, parse_step, body_of,
  parse_single, parse_range, is_stepped, parse_term, split_commas, parse_terms, parse_field,
}

steps_from-low :
    (fuel v hi step n : ℕ) → selects (steps_from fuel v hi step) n ≡ true → (v ≤ n) × (n ≤ hi)
unfolding steps_from selects
steps_from-low zero v hi step n h = ground arith
steps_from-low (suc fuel) v hi step n h = ground (arith, steps_from-low fuel (v + step) hi step n)

selects-append : (vs ws : List ℕ) (n : ℕ) → selects (vs ++ ws) n ≡ (selects vs n || selects ws n)
unfolding selects
selects-append [] ws n = refl
selects-append (v ∷ vs) ws n = ground (arith, selects-append vs ws n)

number_in-bounds :
    (t : Text) (spec : FieldSpec) (n : ℕ)
    → number_in t spec ≡ some n
    → (spec.min ≤ n) × (n ≤ spec.max)
unfolding number_in
number_in-bounds t spec n h = elim (Option-cases (whole_number t)) [
  | inl other ↦ ground arith
  | inr (m, read) ↦ ground arith
]

parse_single-bounds :
    (body : Text) (spec : FieldSpec) (stepped : Bool) (lo hi : ℕ)
    → parse_single body spec stepped ≡ some (lo, hi)
    → (spec.min ≤ lo) × (lo ≤ hi) × (hi ≤ spec.max)
unfolding parse_single
parse_single-bounds body spec stepped lo hi h = elim (Option-cases (number_in body spec)) [
  | inl bad ↦ ground arith
  | inr (n, read) ↦ ground (arith, number_in-bounds body spec n read)
]

parse_range-bounds :
    (body : Text) (spec : FieldSpec) (stepped : Bool) (lo hi : ℕ)
    → spec.min ≤ spec.max
    → parse_range body spec stepped ≡ some (lo, hi)
    → (spec.min ≤ lo) × (lo ≤ hi) × (hi ≤ spec.max)
unfolding parse_range
parse_range-bounds body spec stepped lo hi fits h = elim (Bool-cases (body == text "*")) [
  | inl star ↦ ground arith
  | inr other ↦ elim (Option-cases (cut b'-' body)) [
    | inl whole ↦ parse_single-bounds body spec stepped lo hi (ground arith)
    | inr (([], after), found) ↦ parse_single-bounds body spec stepped lo hi (ground arith)
    | inr ((u ∷ before, after), found) ↦ elim (Option-cases (number_in (u ∷ before) spec)) [
      | inl bad ↦ ground arith
      | inr (l, low) ↦ elim (Option-cases (number_in after spec)) [
        | inl bad ↦ ground arith
        | inr (m, high) ↦
            ground
              (arith, number_in-bounds (u ∷ before) spec l low, number_in-bounds after spec m high)
      ]
    ]
  ]
]

parse_term-bounds :
    (term : Text) (spec : FieldSpec) (vs : List ℕ) (n : ℕ)
    → spec.min ≤ spec.max
    → parse_term term spec ≡ some vs
    → selects vs n ≡ true
    → (spec.min ≤ n) × (n ≤ spec.max)
unfolding parse_term steps
parse_term-bounds [] spec vs n fits h s = ground arith
parse_term-bounds (u ∷ t) spec vs n fits h s =
    let slash = cut b'/' (u ∷ t) in
    elim (Option-cases (parse_step slash)) [
      | inl bad ↦ ground arith
      | inr (step, stepping) ↦
          elim (Option-cases (parse_range (body_of (u ∷ t) slash) spec (is_stepped slash))) [
            | inl bad ↦ ground arith
            | inr ((lo, hi), range) ↦ ground (
              arith,
              parse_range-bounds (body_of (u ∷ t) slash) spec (is_stepped slash) lo hi fits range,
              steps_from-low (suc (hi - lo)) lo hi step n,
            )
          ]
    ]

parse_terms-bounds :
    (terms : List Text) (spec : FieldSpec) (vs : List ℕ) (n : ℕ)
    → spec.min ≤ spec.max
    → parse_terms terms spec ≡ some vs
    → selects vs n ≡ true
    → (spec.min ≤ n) × (n ≤ spec.max)
unfolding parse_terms selects
parse_terms-bounds [] spec vs n fits h s = ground arith
parse_terms-bounds (term ∷ terms) spec vs n fits h s = elim (Option-cases (parse_term term spec)) [
  | inl bad ↦ ground arith
  | inr (these, read) ↦ elim (Option-cases (parse_terms terms spec)) [
    | inl bad ↦ ground arith
    | inr (those, rest) ↦ elim (Bool-cases (selects these n)) [
      | inl here ↦ parse_term-bounds term spec these n fits read here
      | inr later ↦
          parse_terms-bounds terms spec those n fits rest
            (ground (arith, selects-append these those n))
    ]
  ]
]

-- A field that is parsed selects a value at least, and every value that it selects is within the bounds of
-- the field, whatever terms, ranges and steps it is written with.
pub parse_field_bounds :
    (t : Text) (spec : FieldSpec) (vs : List ℕ) (n : ℕ)
    → spec.min ≤ spec.max
    → parse_field t spec ≡ some vs
    → selects vs n ≡ true
    → (vs ≢ []) × (spec.min ≤ n) × (n ≤ spec.max)
unfolding parse_field
parse_field_bounds t spec vs n fits h s = elim (Option-cases (parse_terms (split_commas t) spec)) [
  | inl bad ↦ ground arith
  | inr ([], read) ↦ ground arith
  | inr (w ∷ ws, read) ↦
      ground (arith, parse_terms-bounds (split_commas t) spec vs n fits (ground arith) s)
]
