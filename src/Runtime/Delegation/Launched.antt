-- ===== src/Runtime/Delegation/Launched.antt =====
-- What a launch of runtime/delegate.ts has passed, and what its spend leaves the run that pays for it.
use mr_robot.Common.{
  ℕ, suc, ◌+◌, length, ◌≤◌, ◌≡◌, refl, subst, Bool, true, false, Option, none, some, get_or, List,
  [], ◌∷◌, arith, if◌then◌else◌,
}
use mr_robot.Common.Text.{Text}
use mr_robot.Common.Map.{text_eq, get, has}
use mr_robot.Goals.Plan.{PlanTask}
use mr_robot.Runtime.Budget.{Budget, add, charge, remaining_ms, remaining_micro_usd}
use mr_robot.Runtime.Delegation.{
  AgentRecord, Caller, AdoptedPlan, RunState, Reason, Delegation, Answer, waits_on, Launch, refuse,
  state_of, open_state, not_in_plan, depth_capped,
}
use mr_robot.Runtime.Delegation.Handoff.{
  check_brief, check_place, check_target, check_budget, task_checks, target_id, admit,
  first_waiting, delegate_task, delegate_planned, delegate_asked, delegate, RunOutcome, settle,
}
use mr_robot.Runtime.Delegation.Handed.{max_children, check_place-none}
use mr_robot.Runtime.Delegation.Admissible.{
  IsAdmissible, waits_on-injective, rest_none, target_none, budget_none, ended_ok,
}
use mr_robot.Runtime.Delegation.Reached.{first_waiting-none}

module _ (caller : Caller) (agents : Text → Option AgentRecord) (budget : Budget) (now : ℕ)
    (child : Text) (d : Delegation) (launch : Launch)
    (root : has caller.run_id d.child_runs ≡ false) where
  abbrev state : RunState
  state = state_of caller.run_id d

  task-IsAdmissible :
      (brief t : Text) (plan : AdoptedPlan) (task : PlanTask) (goal : Text) (e : Delegation)
      → state.adopted ≡ some plan
      → get t plan.tasks ≡ some task
      → get t plan.tree.tasks ≡ some goal
      → (delegate_task caller agents budget now child brief state t task goal e).1 ≡ waits_on launch
      → IsAdmissible caller agents budget now (some t) d launch
  unfolding delegate_task refuse admit
  task-IsAdmissible brief t plan task goal e adopts has_task has_goal =
      by (task_checks caller agents budget now state t task) refl
    where
      given : Launch
      given = record {
        agent_id = target_id task.template (agents task.template);
        task = task;
        brief = brief;
        goal_id = goal;
        usd_max = remaining_micro_usd budget;
        wallclock_ms = remaining_ms budget now;
      }

      by :
          (o : Option Reason)
          → task_checks caller agents budget now state t task ≡ o
          → (elim o as (λ x. Delegation × Answer) [
            | some r ↦ refuse caller.run_id r (some t) e
            | none ↦ admit caller state t child given e
          ]).1
            ≡ waits_on launch
          → IsAdmissible caller agents budget now (some t) d launch
      by (some r) f is = absurd (ground (arith, is))
      by none f is =
          subst (IsAdmissible caller agents budget now (some t) d)
            (waits_on-injective given launch is)
            (record {
              root = root;
              id = t;
              named = refl;
              plan = plan;
              adopted = adopts;
              planned = has_task;
              goal = has_goal;
              free = here.0;
              ready = λ dep needs.
                  ended_ok (get dep state.children)
                    (first_waiting-none state.children dep task.depends_on here.1 needs);
              room = here.2;
              target = target_none caller task.template (agents task.template) passed.0;
              money = refl;
              time = refl;
              some_money = (budget_none budget now passed.1).0;
              some_time = (budget_none budget now passed.1).1;
            })
        where
          later : List (Option Reason)
          later =
              check_target caller task.template (agents task.template)
              ∷ check_budget budget now
              ∷ []

          place : Option Reason
          place = check_place state (max_children agents caller.agent_id) t task

          here :
              (get t state.children ≡ none)
              × (first_waiting state.children task.depends_on ≡ none)
              × (suc (length state.children) ≤ get_or (max_children agents caller.agent_id) 0)
          here =
              check_place-none state (max_children agents caller.agent_id) t task
                (rest_none place later f).0

          passed :
              (check_target caller task.template (agents task.template) ≡ none)
              × (check_budget budget now ≡ none)
          passed = (
            (rest_none (check_target caller task.template (agents task.template))
                (check_budget budget now ∷ []) (rest_none place later f).1).0,
            (rest_none (check_budget budget now) []
                (rest_none (check_target caller task.template (agents task.template))
                  (check_budget budget now ∷ []) (rest_none place later f).1).1).0,
          )

  planned-IsAdmissible :
      (brief t : Text) (o : Option AdoptedPlan) (e : Delegation)
      → state.adopted ≡ o
      → (delegate_planned caller agents budget now child brief state t o e).1 ≡ waits_on launch
      → IsAdmissible caller agents budget now (some t) d launch
  unfolding delegate_planned refuse
  planned-IsAdmissible brief t none e adopts is = absurd (ground (arith, is))
  planned-IsAdmissible brief t (some plan) e adopts is =
      by (get t plan.tasks) (get t plan.tree.tasks) refl refl is
    where
      by :
          (o : Option PlanTask) (g : Option Text)
          → get t plan.tasks ≡ o
          → get t plan.tree.tasks ≡ g
          → (elim o as (λ x. Delegation × Answer) [
            | none ↦ refuse caller.run_id not_in_plan (some t) e
            | some task ↦ elim g as (λ x. Delegation × Answer) [
              | none ↦ refuse caller.run_id not_in_plan (some t) e
              | some goal ↦ delegate_task caller agents budget now child brief state t task goal e
            ]
          ]).1
            ≡ waits_on launch
          → IsAdmissible caller agents budget now (some t) d launch
      by none g p q is = absurd (ground (arith, is))
      by (some task) none p q is = absurd (ground (arith, is))
      by (some task) (some goal) p q is = task-IsAdmissible brief t plan task goal e adopts p q is

asked-IsAdmissible :
    (caller : Caller) (agents : Text → Option AgentRecord) (budget : Budget) (now : ℕ)
    (child t : Text) (brief : Option Text) (d : Delegation) (launch : Launch)
    → (delegate_asked caller agents budget now child t brief d).1 ≡ waits_on launch
    → IsAdmissible caller agents budget now (some t) d launch
unfolding delegate_asked refuse
asked-IsAdmissible caller agents budget now child t brief d launch =
    by (check_brief t brief) (has caller.run_id d.child_runs) refl
  where
    by :
        (o : Option Reason) (b : Bool)
        → has caller.run_id d.child_runs ≡ b
        → (elim o as (λ x. Delegation × Answer) [
          | some r ↦ refuse caller.run_id r (some t) d
          | none ↦
              if b
              then refuse caller.run_id depth_capped (some t) d
              else delegate_planned caller agents budget now child
                  (get_or brief [])
                  (state_of caller.run_id d)
                  t
                  (state_of caller.run_id d).adopted
                  (open_state caller.run_id d)
        ]).1
          ≡ waits_on launch
        → IsAdmissible caller agents budget now (some t) d launch
    by (some r) b e is = absurd (ground (arith, is))
    by none true e is = absurd (ground (arith, is))
    by none false e is =
        planned-IsAdmissible caller agents budget now child d launch e (get_or brief []) t
          (state_of caller.run_id d).adopted (open_state caller.run_id d) refl is

-- A delegation launches only what it may: the caller is not among the child runs; the task is the one of its
-- adopted plan under the id that was asked for, with the goal that was written for it; no child serves the
-- task yet, every task that it depends on has a child that finished with the status ok, and the caller has
-- fewer children than its agent's record gives; the launched agent is the one that the task names, an active
-- standard worker of no higher tier than the caller; and the ceilings are all that is left of the caller's
-- money and time, at least one of each.
pub launch_passes_checks :
    (caller : Caller) (agents : Text → Option AgentRecord) (budget : Budget) (now : ℕ)
    (child : Text) (task_id brief : Option Text) (d : Delegation) (launch : Launch)
    → (delegate caller agents budget now child task_id brief d).1 ≡ waits_on launch
    → IsAdmissible caller agents budget now task_id d launch
unfolding delegate refuse
launch_passes_checks caller agents budget now child none brief d launch is =
    absurd (ground (arith, is))
launch_passes_checks caller agents budget now child (some []) brief d launch is =
    absurd (ground (arith, is))
launch_passes_checks caller agents budget now child (some (u ∷ t)) brief d launch is =
    asked-IsAdmissible caller agents budget now child (u ∷ t) brief d launch is

-- When a child spent no more than the ceiling of its launch, and while the run that launched it waited, no money
-- was charged to that run and its cap on money stayed, then, however the child ended, what the run has spent
-- is what it had spent at the launch and what the child spent, and is within its cap.
pub child_spend_stays_in_cap :
    (caller : Caller) (agents : Text → Option AgentRecord) (budget waited : Budget) (now later : ℕ)
    (child : Text) (task_id brief : Option Text) (d e : Delegation) (launch : Launch)
    (served : Text) (outcome : RunOutcome)
    → (delegate caller agents budget now child task_id brief d).1 ≡ waits_on launch
    → waited.cost_micro_usd ≡ budget.cost_micro_usd
    → waited.caps.usd_max ≡ budget.caps.usd_max
    → outcome.cost_micro_usd ≤ launch.usd_max
    → ((settle caller.run_id served child outcome waited later e).1.cost_micro_usd
        ≡ budget.cost_micro_usd + outcome.cost_micro_usd)
      × ((settle caller.run_id served child outcome waited later e).1.cost_micro_usd
          ≤ waited.caps.usd_max)
unfolding settle charge add remaining_micro_usd
child_spend_stays_in_cap caller agents budget waited now later child task_id brief d e launch served
      outcome is same_cost same_cap within =
    let checked = launch_passes_checks caller agents budget now child task_id brief d launch is in
    (
      omega (arith, same_cost),
      omega (arith, same_cost, same_cap, within, checked.money, checked.some_money),
    )
