-- ===== src/Runtime/Delegation/Handoff.antt =====
-- `#delegate` of runtime/delegate.ts: the checks in the order of the code, the launch, and what is done
-- when the child has finished.
use mr_robot.Common.{
  ℕ, Bool, true, false, not, ◌||◌, Option, none, some, is_some, get_or, List, [], ◌∷◌, ◌++◌, length,
  ltb, leb, if◌then◌else◌,
}
use mr_robot.Common.Text.{Text, ◌==◌}
use mr_robot.Common.Map.{Map, text_eq, get, set, has}
use mr_robot.Runtime.Cron.Match.{trim}
use mr_robot.Runtime.Budget.{Budget, cost, charge, remaining_ms, remaining_micro_usd}
use mr_robot.Goals.Plan.{PlanTask}
use mr_robot.Runtime.Delegation.{
  RunStatus, ok, error, killed, denied, AgentRecord, Caller, AdoptedPlan, ChildRecord, RunState,
  Reason, task_required, brief_required, brief_too_long, depth_capped, no_plan, not_in_plan,
  already_delegated, waits_for, too_many_children, not_active_worker, above_tier, no_budget, Launch,
  admitted, result, Delegation, Answer, waits_on, state_of, put_state, open_state, refuse,
  is_active_worker, brief_max,
}

-- `status === 'ok'`
unfoldable pub is_ok : Option RunStatus → Bool
is_ok (some ok) = true
is_ok (some error) = false
is_ok (some killed) = false
is_ok (some denied) = false
is_ok none = false

-- `done?.status === 'ok'`
unfoldable pub finished_well : Option ChildRecord → Bool
finished_well none = false
finished_well (some c) = is_ok c.status

-- The first dependency that has not finished well.
unfoldable pub first_waiting : Map Text ChildRecord → List Text → Option Text
first_waiting children [] = none
first_waiting children (dep ∷ deps) =
    let later = first_waiting children deps in
    if finished_well (get dep children) then later else some dep

-- What the arguments ask for: a task and a brief, or why they are refused.
unfoldable pub check_brief : Text → Option Text → Option Reason
check_brief task_id none = some brief_required
check_brief task_id (some brief) =
    if trim brief == []
    then some brief_required
    else if ltb brief_max (length brief)
    then some (brief_too_long (length brief))
    else none

-- The task's place among the children: its goal, its own dispatch, its dependencies, their number.
unfoldable pub check_place : RunState → Option ℕ → Text → PlanTask → Option Reason
check_place state max_children task_id task =
    if is_some (get task_id state.children)
    then some already_delegated
    else elim (first_waiting state.children task.depends_on) [
      | some dep ↦ some (waits_for dep (get dep state.children))
      | none ↦
          if leb (get_or max_children 0) (length state.children)
          then some (too_many_children (get_or max_children 0))
          else none
    ]

-- The agent that the plan names.
unfoldable pub check_target : Caller → Text → Option AgentRecord → Option Reason
check_target caller template none = some (not_active_worker template)
check_target caller template (some target) =
    if not (is_active_worker target)
    then some (not_active_worker template)
    else if ltb caller.tier target.tier
    then some (above_tier target.tier)
    else none

unfoldable pub check_budget : Budget → ℕ → Option Reason
check_budget budget now =
    if ltb (remaining_micro_usd budget) 1 || ltb (remaining_ms budget now) 1
    then some no_budget
    else none

-- The first refusal of a list of checks.
unfoldable pub first_refusal : List (Option Reason) → Option Reason
first_refusal [] = none
first_refusal (some r ∷ checks) = some r
first_refusal (none ∷ checks) = first_refusal checks

-- `this.#o.launch`, and the records that are made before the wait.
unfoldable pub admit : Caller → RunState → Text → Text → Launch → Delegation → Delegation × Answer
admit caller state task_id child_run_id launch d = (
  record (put_state caller.run_id
      (record state {
        children =
            set task_id (record { child_run_id = child_run_id; status = none }) state.children;
      })
      d) {
        child_runs = d.child_runs ++ child_run_id ∷ [];
        log = d.log ++ admitted caller.run_id child_run_id task_id launch ∷ [];
      },
  waits_on launch,
)

abbrev pub task_checks :
    Caller → (Text → Option AgentRecord) → Budget → ℕ → RunState → Text → PlanTask → Option Reason
task_checks caller agents budget now state task_id task = first_refusal (
    check_place state (elim (agents caller.agent_id) [ none ↦ none | some a ↦ a.max_children ])
      task_id task
    ∷ check_target caller task.template (agents task.template)
    ∷ check_budget budget now
    ∷ [])

-- `target.manifest.id`
unfoldable pub target_id : Text → Option AgentRecord → Text
target_id template none = template
target_id template (some a) = a.id

unfoldable pub delegate_task :
    Caller
    → (Text → Option AgentRecord)
    → Budget
    → ℕ
    → Text
    → Text
    → RunState
    → Text
    → PlanTask
    → Text
    → Delegation
    → Delegation × Answer
delegate_task caller agents budget now child_run_id brief state task_id task goal_id d =
    elim (task_checks caller agents budget now state task_id task) [
      | some r ↦ refuse caller.run_id r (some task_id) d
      | none ↦
          admit caller state task_id child_run_id
            (record {
              agent_id = target_id task.template (agents task.template);
              task = task;
              brief = brief;
              goal_id = goal_id;
              usd_max = remaining_micro_usd budget;
              wallclock_ms = remaining_ms budget now;
            })
            d
    ]

unfoldable pub delegate_planned :
    Caller
    → (Text → Option AgentRecord)
    → Budget
    → ℕ
    → Text
    → Text
    → RunState
    → Text
    → Option AdoptedPlan
    → Delegation
    → Delegation × Answer
delegate_planned caller agents budget now child_run_id brief state task_id none d =
    refuse caller.run_id no_plan (some task_id) d
delegate_planned caller agents budget now child_run_id brief state task_id (some plan) d =
    elim (get task_id plan.tasks) [
      | none ↦ refuse caller.run_id not_in_plan (some task_id) d
      | some task ↦ elim (get task_id plan.tree.tasks) [
        | none ↦ refuse caller.run_id not_in_plan (some task_id) d
        | some goal_id ↦
            delegate_task caller agents budget now child_run_id brief state task_id task goal_id d
      ]
    ]

unfoldable pub delegate_asked :
    Caller
    → (Text → Option AgentRecord)
    → Budget
    → ℕ
    → Text
    → Text
    → Option Text
    → Delegation
    → Delegation × Answer
delegate_asked caller agents budget now child_run_id task_id brief d =
    elim (check_brief task_id brief) [
      | some r ↦ refuse caller.run_id r (some task_id) d
      | none ↦
          if has caller.run_id d.child_runs
          then refuse caller.run_id depth_capped (some task_id) d
          else delegate_planned caller agents budget now child_run_id (get_or brief [])
              (state_of caller.run_id d) task_id (state_of caller.run_id d).adopted
              (open_state caller.run_id d)
    ]

-- `#delegate` up to the wait. `child_run_id` is what the launch gives back.
unfoldable pub delegate :
    Caller
    → (Text → Option AgentRecord)
    → Budget
    → ℕ
    → Text
    → Option Text
    → Option Text
    → Delegation
    → Delegation × Answer
delegate caller agents budget now child_run_id none brief d =
    refuse caller.run_id task_required none d
delegate caller agents budget now child_run_id (some []) brief d =
    refuse caller.run_id task_required none d
delegate caller agents budget now child_run_id (some (u ∷ task_id)) brief d =
    delegate_asked caller agents budget now child_run_id (u ∷ task_id) brief d

-- What delegation reads of a run's outcome.
pub record RunOutcome : Type 0 where
  pub status : RunStatus
  pub cost_micro_usd : ℕ
  pub tainted : Bool

-- `child.status = outcome.status`, on the record that the launch made, if it is still there.
unfoldable pub set_status : Text → Text → RunStatus → Map Text ChildRecord → Map Text ChildRecord
set_status task_id child_run_id status children = elim (get task_id children) [
  | none ↦ children
  | some c ↦
      if c.child_run_id == child_run_id
      then set task_id (record c { status = some status }) children
      else children
]

pub record Returned : Type 0 where
  pub was_ok : Bool
  pub taints : Bool

-- `#delegate` from the wait.
unfoldable pub settle :
    Text → Text → Text → RunOutcome → Budget → ℕ → Delegation → Delegation × Budget × Returned
settle run_id task_id child_run_id outcome budget now d = (
  record (elim (get run_id d.runs) [
    | none ↦ d
    | some s ↦
        put_state run_id
          (record s { children = set_status task_id child_run_id outcome.status s.children }) d
  ]) {
    log =
        d.log
        ++ result run_id child_run_id outcome.status outcome.cost_micro_usd outcome.tainted ∷ [];
  },
  (charge budget cost outcome.cost_micro_usd now).0,
  record { was_ok = is_ok (some outcome.status); taints = outcome.tainted },
)
