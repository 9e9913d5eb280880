-- ===== src/Runtime/Budget.antt =====
-- runtime/budget.ts: the caps of one run and what it has spent. Amounts and times are whole numbers;
-- a value that is no integer, which the code refuses, is no value of the model. A clock reading is an
-- argument, so a clock that runs backwards is one reading below another.
pub mod Laws
use mr_robot.Common.{ℕ, ◌+◌, ◌-◌, Bool, true, false, Option, none, some, ltb, leb, if◌then◌else◌}
use mr_robot.Common.Partial.{◌>>=◌}

pub data StopReason : Type 0 where
  usd_max max_llm_calls max_tool_calls wallclock : StopReason

pub data ChargeKind : Type 0 where
  cost llm tool : ChargeKind

pub record BudgetCaps : Type 0 where
  pub usd_max : ℕ
  pub max_llm_calls : ℕ
  pub max_tool_calls : ℕ
  pub wallclock_ms : ℕ

pub record KernelBudgets : Type 0 where
  pub default_run_micro_usd : ℕ
  pub default_wallclock_ms : ℕ
  pub max_llm_calls_per_run : ℕ
  pub max_tool_calls_per_run : ℕ

pub record ManifestBudget : Type 0 where
  pub max_cost_micro_usd : Option ℕ
  pub max_llm_calls : Option ℕ
  pub max_tool_calls : Option ℕ
  pub max_wallclock_ms : Option ℕ

-- `none` is a thrown ConfigError, here and below.
unfoldable pub assert_usable : ℕ → Option ℕ
assert_usable value = if ltb value 1 then none else some value

unfoldable pub pick : ℕ → Option ℕ → Option ℕ
unfolding assert_usable
pick ceiling asked = do
  c ← assert_usable ceiling
  elim asked [
    | none ↦ some c
    | some a ↦ do wanted ← assert_usable a; if ltb ceiling wanted then none else some wanted
  ]

unfoldable pub resolve_caps : KernelBudgets → ManifestBudget → Option BudgetCaps
resolve_caps kernel manifest = do
  usd ← pick kernel.default_run_micro_usd manifest.max_cost_micro_usd
  llm_calls ← pick kernel.max_llm_calls_per_run manifest.max_llm_calls
  tool_calls ← pick kernel.max_tool_calls_per_run manifest.max_tool_calls
  wall ← pick kernel.default_wallclock_ms manifest.max_wallclock_ms
  some (record {
    usd_max = usd;
    max_llm_calls = llm_calls;
    max_tool_calls = tool_calls;
    wallclock_ms = wall;
  })

pub record Budget : Type 0 where
  pub caps : BudgetCaps
  pub started_at : Option ℕ
  pub cost_micro_usd : ℕ
  pub llm_calls : ℕ
  pub tool_calls : ℕ

-- The constructor.
unfoldable pub new_budget : BudgetCaps → Option Budget
unfolding assert_usable
new_budget caps = do
  usd ← assert_usable caps.usd_max
  llm_calls ← assert_usable caps.max_llm_calls
  tool_calls ← assert_usable caps.max_tool_calls
  wall ← assert_usable caps.wallclock_ms
  some
      (record { caps = caps; started_at = none; cost_micro_usd = 0; llm_calls = 0; tool_calls = 0 })

-- `#startedAt ??= now()`
unfoldable pub start : Budget → ℕ → Budget
start b now = elim b.started_at [ none ↦ record b { started_at = some now } | some t ↦ b ]

-- `now() - #startedAt >= wallclockMs`, where a clock that ran backwards gives a negative difference.
unfoldable pub overrun : Budget → ℕ → Bool
overrun b now = elim b.started_at [ none ↦ false | some t ↦ leb (t + b.caps.wallclock_ms) now ]

-- `none` is `{ ok: true }`.
unfoldable pub check : Budget → ℕ → Option StopReason
unfolding overrun
check b now =
    if overrun b now
    then some wallclock
    else if leb b.caps.usd_max b.cost_micro_usd
    then some usd_max
    else if leb b.caps.max_llm_calls b.llm_calls
    then some max_llm_calls
    else if leb b.caps.max_tool_calls b.tool_calls
    then some max_tool_calls
    else none

unfoldable pub add : Budget → ChargeKind → ℕ → Budget
add b cost amount = record b { cost_micro_usd = b.cost_micro_usd + amount }
add b llm amount = record b { llm_calls = b.llm_calls + amount }
add b tool amount = record b { tool_calls = b.tool_calls + amount }

unfoldable pub charge : Budget → ChargeKind → ℕ → ℕ → Budget × Option StopReason
unfolding add
charge b kind amount now = let spent = add b kind amount in (spent, check spent now)

-- `Math.max(0, now() - startedAt)`
unfoldable pub elapsed_ms : Budget → ℕ → ℕ
elapsed_ms b now = elim b.started_at [ none ↦ 0 | some t ↦ now - t ]

-- `Math.max(0, wallclockMs - (now() - startedAt))`; the difference may be negative.
unfoldable pub remaining_ms : Budget → ℕ → ℕ
remaining_ms b now = elim b.started_at [
  | none ↦ b.caps.wallclock_ms
  | some t ↦ b.caps.wallclock_ms + t - now
]

unfoldable pub remaining_micro_usd : Budget → ℕ
remaining_micro_usd b = b.caps.usd_max - b.cost_micro_usd
