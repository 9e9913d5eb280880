-- ===== src/Runtime/Budget/Laws.antt =====
-- What the caps of runtime/budget.ts guarantee.
use mr_robot.Common.{
  ℕ, zero, suc, ◌+◌, ◌≡◌, ◌≢◌, refl, ◌≤◌, ◌<◌, ◌↔◌, inl, inr, ◌∙◌, leb, ltb, Bool-cases, Bool, true,
  false, Option, none, some, List, [], ◌∷◌, arith,
}
use mr_robot.Runtime.Budget.{
  max_llm_calls, ChargeKind, cost, llm, tool, BudgetCaps, KernelBudgets, ManifestBudget, pick,
  resolve_caps, Budget, overrun, check, charge,
}

-- One cap lies between one and the kernel's ceiling, and is what the manifest asks for, if it asks.
pub record Lowered (ceiling : ℕ) (asked : Option ℕ) (cap : ℕ) : Type 0 where
  pub usable : 1 ≤ cap
  pub below : cap ≤ ceiling
  pub as_asked : (a : ℕ) → asked ≡ some a → cap ≡ a
  pub as_ceiling : asked ≡ none → cap ≡ ceiling

pick-Lowered :
    (ceiling : ℕ) (asked : Option ℕ) {cap : ℕ}
    → pick ceiling asked ≡ some cap
    → Lowered ceiling asked cap
unfolding pick
pick-Lowered ceiling none h = record {
  usable = ground arith;
  below = ground arith;
  as_asked = λ a e. cc;
  as_ceiling = λ e. ground arith;
}
pick-Lowered ceiling (some a) h = record {
  usable = ground arith;
  below = ground arith;
  as_asked = λ b e. ground arith;
  as_ceiling = λ e. cc;
}

Lowered-pick :
    (ceiling : ℕ) (asked : Option ℕ) {cap : ℕ}
    → Lowered ceiling asked cap
    → pick ceiling asked ≡ some cap
unfolding pick
Lowered-pick ceiling none l = ground (arith, l.usable, l.as_ceiling refl)
Lowered-pick ceiling (some a) l = ground (arith, l.usable, l.below, l.as_asked a refl)

-- Each of the four caps, against the kernel's ceiling and what the manifest asks for.
abbrev pub AllLowered : KernelBudgets → ManifestBudget → BudgetCaps → Type 0
AllLowered kernel manifest caps =
    Lowered kernel.default_run_micro_usd manifest.max_cost_micro_usd caps.usd_max
    × Lowered kernel.max_llm_calls_per_run manifest.max_llm_calls caps.max_llm_calls
    × Lowered kernel.max_tool_calls_per_run manifest.max_tool_calls caps.max_tool_calls
    × Lowered kernel.default_wallclock_ms manifest.max_wallclock_ms caps.wallclock_ms

-- A run is admitted with some caps exactly when each of them is at least one and no more than the kernel's ceiling,
-- and is what the manifest asks for where it asks, and the ceiling where it does not. A manifest
-- that asks for more than a ceiling, or for none, is refused and not clamped.
pub resolve_caps_exactly :
    (kernel : KernelBudgets) (manifest : ManifestBudget) (caps : BudgetCaps)
    → (resolve_caps kernel manifest ≡ some caps) ↔ AllLowered kernel manifest caps
unfolding resolve_caps
resolve_caps_exactly kernel manifest caps = (
  λ h. (
    pick-Lowered kernel.default_run_micro_usd manifest.max_cost_micro_usd (ground arith),
    pick-Lowered kernel.max_llm_calls_per_run manifest.max_llm_calls (ground arith),
    pick-Lowered kernel.max_tool_calls_per_run manifest.max_tool_calls (ground arith),
    pick-Lowered kernel.default_wallclock_ms manifest.max_wallclock_ms (ground arith),
  ),
  λ (usd, llm_calls, tool_calls, wall). rw (
    Lowered-pick kernel.default_run_micro_usd manifest.max_cost_micro_usd usd,
    Lowered-pick kernel.max_llm_calls_per_run manifest.max_llm_calls llm_calls,
    Lowered-pick kernel.max_tool_calls_per_run manifest.max_tool_calls tool_calls,
    Lowered-pick kernel.default_wallclock_ms manifest.max_wallclock_ms wall,
  ),
)

-- A run that takes `n` steps of one model call each, and asks before every one whether it may.
unfoldable pub permitted : Budget → ℕ → ℕ → Bool
permitted b zero now = true
permitted b (suc n) now = elim (check b now) [
  | none ↦ permitted (charge b llm 1 now).0 n now
  | some stop ↦ false
]

-- A cap of N model calls permits exactly N: while no other cap is reached, a run that has made no more
-- calls than its cap may take `n` more steps exactly when they stay within it.
pub cap_permits_exactly :
    (b : Budget) (n now : ℕ)
    → overrun b now ≡ false
    → b.cost_micro_usd < b.caps.usd_max
    → b.tool_calls < b.caps.max_tool_calls
    → b.llm_calls ≤ b.caps.max_llm_calls
    → permitted b n now ≡ leb (b.llm_calls + n) b.caps.max_llm_calls
unfolding permitted charge overrun
cap_permits_exactly b zero now w c t h = ground arith
cap_permits_exactly b (suc n) now w c t h =
    elim (Bool-cases (ltb b.llm_calls b.caps.max_llm_calls)) [
      | inl below ↦
          let more : permitted (charge b llm 1 now).0 n now
              ≡ leb (b.llm_calls + 1 + n) b.caps.max_llm_calls =
            cap_permits_exactly (charge b llm 1 now).0 n now w c t (ground arith) in
          let passes : check b now ≡ none = unfold check in ground arith in
          rw (passes, permitted) (more ∙ ground arith)
      | inr reached ↦
          let stops : check b now ≡ some max_llm_calls = unfold check in ground arith in
          rw (stops, permitted) (ground arith)
    ]

pub charge_many : Budget → List (ChargeKind × ℕ × ℕ) → Budget
charge_many b [] = b
charge_many b ((kind, amount, now) ∷ rest) = charge_many (charge b kind amount now).0 rest

-- A budget that has stopped a run stays stopped, whatever is charged to it afterwards and at whatever
-- later clock reading it is asked.
pub stop_is_final :
    (b : Budget) (now later : ℕ) (work : List (ChargeKind × ℕ × ℕ))
    → check b now ≢ none
    → now ≤ later
    → check (charge_many b work) later ≢ none
unfolding charge_many
stop_is_final b now later [] h le = unfold check in ground (arith, h)
stop_is_final b now later ((kind, amount, at) ∷ rest) h le =
    stop_is_final (charge b kind amount at).0 now later rest (still b kind amount at now h) le
  where
    still :
        (b : Budget) (kind : ChargeKind) (amount at now : ℕ)
        → check b now ≢ none
        → check (charge b kind amount at).0 now ≢ none
    still b cost amount at now h = unfold check charge in ground (arith, h)
    still b llm amount at now h = unfold check charge in ground (arith, h)
    still b tool amount at now h = unfold check charge in ground (arith, h)
