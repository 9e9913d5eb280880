-- ===== src/Tests/Limits.antt =====
-- Budgets and semaphores at concrete inputs.
use mr_robot.Common.{
  ◌+◌, ◌≤◌, ◌≡◌, ◌≢◌, ◌↔◌, refl, true, false, none, some, List, [], ◌∷◌, ◌++◌, arith, leb,
}
use mr_robot.Runtime.Budget.{
  llm, BudgetCaps, KernelBudgets, ManifestBudget, resolve_caps, assert_usable, pick, Budget,
  overrun, check,
}
use mr_robot.Runtime.Budget.Laws.{
  resolve_caps_exactly, AllLowered, permitted, cap_permits_exactly, charge_many, stop_is_final,
}
use mr_robot.Runtime.Semaphore.{Semaphore, create, Action, acquires, aborts, releases, run}
use mr_robot.Runtime.Semaphore.Invariant.{out, cap_is_kept}
use mr_robot.Runtime.Semaphore.Order.{Rising, ids, admission_is_fifo}

abbrev kernel : KernelBudgets
kernel = record {
  default_run_micro_usd = 1000;
  default_wallclock_ms = 5000;
  max_llm_calls_per_run = 20;
  max_tool_calls_per_run = 30;
}

abbrev modest : ManifestBudget
modest = record {
  max_cost_micro_usd = none;
  max_llm_calls = some 3;
  max_tool_calls = none;
  max_wallclock_ms = some 100;
}

abbrev greedy : ManifestBudget
greedy = record {
  max_cost_micro_usd = none;
  max_llm_calls = some 21;
  max_tool_calls = none;
  max_wallclock_ms = none;
}

abbrev caps : BudgetCaps
caps = record { usd_max = 1000; max_llm_calls = 3; max_tool_calls = 30; wallclock_ms = 100 }

modest_resolves : resolve_caps kernel modest ≡ some caps
unfolding resolve_caps pick assert_usable
modest_resolves = refl

resolve_caps_exactly_example :
    (resolve_caps kernel modest ≡ some caps) ↔ AllLowered kernel modest caps
resolve_caps_exactly_example = resolve_caps_exactly kernel modest caps

-- What is above a ceiling is not admitted, whatever the caps.
greedy_refused : resolve_caps kernel greedy ≡ none
unfolding resolve_caps pick assert_usable
greedy_refused = refl

abbrev running : Budget
running = record {
  caps = caps;
  started_at = some 10;
  cost_micro_usd = 0;
  llm_calls = 1;
  tool_calls = 0;
}

in_time : overrun running 50 ≡ false
unfolding overrun
in_time = refl

cap_permits_exactly_example : permitted running 2 50 ≡ leb (1 + 2) 3
cap_permits_exactly_example =
    cap_permits_exactly running 2 50 in_time (omega arith) (omega arith) (omega arith)

abbrev spent : Budget
spent = record running { cost_micro_usd = 1000 }

spent_stops : check spent 50 ≢ none
unfolding check overrun
spent_stops = λ h. ground arith

stop_is_final_example : check (charge_many spent ((llm, 1, 60) ∷ [])) 60 ≢ none
stop_is_final_example = stop_is_final spent 50 60 ((llm, 1, 60) ∷ []) spent_stops (omega arith)

abbrev one : Semaphore
one = record {
  cap = 1;
  active = 0;
  waiters = [];
  permits = [];
  granted = [];
  rejected = [];
  next = 0;
}

one_created : create 1 ≡ some one
unfolding create
one_created = refl

-- Two callers, a double release, and a third caller that gives up.
abbrev actions : List Action
actions =
    acquires false false
    ∷ acquires true false
    ∷ acquires true false
    ∷ aborts 2
    ∷ releases 0
    ∷ releases 0
    ∷ []

cap_is_kept_example :
    (out (run one actions).permits ≤ 1)
    × ((run one actions).active ≡ out (run one actions).permits)
    × ((run one actions).waiters ≢ [] → out (run one actions).permits ≡ 1)
cap_is_kept_example = cap_is_kept 1 actions one_created

admission_is_fifo_example :
    Rising 0 ((run one actions).granted ++ ids (run one actions).waiters) (run one actions).next
admission_is_fifo_example = admission_is_fifo 1 actions one_created
