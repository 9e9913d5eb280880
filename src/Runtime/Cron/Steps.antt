-- ===== src/Runtime/Cron/Steps.antt =====
-- The values of a stepped range in runtime/cron.ts, and that its loop ends with the fuel that it is given.
use mr_robot.Common.{
  ℕ, zero, suc, ◌+◌, ◌-◌, ◌*◌, ◌≤◌, ◌<◌, ◌≡◌, ◌↔◌, sym, ◌∙◌, inl, inr, true, leb, arith, Bool-cases,
  ◌==◌ as nat_eq,
}
use mr_robot.Runtime.Cron.{selects, steps_from, steps}

-- The numbers of the grid up to its end.
abbrev pub OnGrid : ℕ → ℕ → ℕ → ℕ → Type 0
OnGrid v hi step n = (k : ℕ) × (n ≡ v + k * step) × (n ≤ hi)

grid_next : (v step k : ℕ) → (v + step) + k * step ≡ v + suc k * step
grid_next v step k = omega arith

selected-OnGrid :
    (fuel v hi step n : ℕ) → selects (steps_from fuel v hi step) n ≡ true → OnGrid v hi step n
unfolding steps_from selects
selected-OnGrid zero v hi step n h = ground arith
selected-OnGrid (suc fuel) v hi step n h = elim (Bool-cases (leb v hi)) [
  | inr past ↦ ground arith
  | inl within ↦ elim (Bool-cases (nat_eq v n)) [
    | inl same ↦ (0, ground arith, ground arith)
    | inr other ↦
        let (k, e, le) = selected-OnGrid fuel (v + step) hi step n (ground arith) in
        (suc k, e ∙ grid_next v step k, le)
  ]
]

grid_selected :
    (fuel v hi step n k : ℕ)
    → 1 ≤ step
    → hi < v + fuel
    → n ≡ v + k * step
    → n ≤ hi
    → selects (steps_from fuel v hi step) n ≡ true
unfolding steps_from selects
grid_selected zero v hi step n k pos enough e le = ground (arith, e)
grid_selected (suc fuel) v hi step n zero pos enough e le = ground (arith, e)
grid_selected (suc fuel) v hi step n (suc k) pos enough e le =
    let later =
      grid_selected fuel (v + step) hi step n k pos (omega arith) (e ∙ sym (grid_next v step k))
        le in
    ground (arith, e, later)

-- For a step that is not zero, the loop of a term selects exactly the numbers from `lo` up to `hi`
-- that are a whole number of steps from `lo`.
pub steps_exactly :
    (lo hi step n : ℕ) → 1 ≤ step → (selects (steps lo hi step) n ≡ true) ↔ OnGrid lo hi step n
unfolding steps
steps_exactly lo hi step n pos = (
  selected-OnGrid (suc (hi - lo)) lo hi step n,
  λ (k, e, le). grid_selected (suc (hi - lo)) lo hi step n k pos (omega arith) e le,
)
