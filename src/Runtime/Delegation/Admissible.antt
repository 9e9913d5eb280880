-- ===== src/Runtime/Delegation/Admissible.antt =====
-- What a delegation of runtime/delegate.ts may launch, and what its checks have found when they refuse nothing.
use mr_robot.Common.{
  ℕ, suc, length, ◌≤◌, ◌≡◌, refl, true, false, Option, none, some, get_or, List, ◌∷◌, arith,
}
use mr_robot.Common.Text.{Text}
use mr_robot.Common.Map.{text_eq, get, has}
use mr_robot.Runtime.Budget.{Budget, remaining_ms, remaining_micro_usd}
use mr_robot.Runtime.Delegation.{
  ok, active, standard, worker, AgentRecord, Caller, AdoptedPlan, ChildRecord, Reason, Delegation,
  waits_on, Launch, is_active_worker, state_of,
}
use mr_robot.Runtime.Delegation.Handoff.{
  check_target, check_budget, first_refusal, target_id, finished_well, is_ok,
}
use mr_robot.Runtime.Delegation.Handed.{max_children}

-- What a launch has to be. The caller is not among the child runs, and has adopted a plan that has the task
-- under the given id, with that goal. No child serves the task yet, all that the task depends on has a child
-- that ended ok, and the caller's agent may have one more child. The launched agent is the one that the task
-- names: an active standard worker of no higher tier. The ceilings are what is left of the caller's budget,
-- which is something.
pub record IsAdmissible (caller : Caller) (agents : Text → Option AgentRecord) (budget : Budget)
    (now : ℕ) (task_id : Option Text) (d : Delegation) (launch : Launch) : Type 0 where
  pub root : has caller.run_id d.child_runs ≡ false
  pub id : Text
  pub named : task_id ≡ some id
  pub plan : AdoptedPlan
  pub adopted : (state_of caller.run_id d).adopted ≡ some plan
  pub planned : get id plan.tasks ≡ some launch.task
  pub goal : get id plan.tree.tasks ≡ some launch.goal_id
  pub free : get id (state_of caller.run_id d).children ≡ none
  pub ready :
      (dep : Text)
      → has dep launch.task.depends_on ≡ true
      → (c : ChildRecord) × (get dep (state_of caller.run_id d).children ≡ some c)
        × (c.status ≡ some ok)
  pub room :
      suc (length (state_of caller.run_id d).children)
      ≤ get_or (max_children agents caller.agent_id) 0
  pub target :
      (a : AgentRecord) × (agents launch.task.template ≡ some a)
      × (launch.agent_id ≡ a.id)
      × (a.status ≡ active)
      × (a.kind ≡ standard)
      × (a.role ≡ worker)
      × (a.tier ≤ caller.tier)
  pub money : launch.usd_max ≡ remaining_micro_usd budget
  pub time : launch.wallclock_ms ≡ remaining_ms budget now
  pub some_money : 1 ≤ launch.usd_max
  pub some_time : 1 ≤ launch.wallclock_ms

pub waits_on-injective : (a b : Launch) → waits_on a ≡ waits_on b → a ≡ b
waits_on-injective a b e = cc

pub rest_none :
    (r : Option Reason) (rest : List (Option Reason))
    → first_refusal (r ∷ rest) ≡ none
    → (r ≡ none) × (first_refusal rest ≡ none)
unfolding first_refusal
rest_none none rest e = (refl, e)
rest_none (some r) rest e = absurd (ground (arith, e))

pub target_none :
    (caller : Caller) (template : Text) (o : Option AgentRecord)
    → check_target caller template o ≡ none
    → (a : AgentRecord) × (o ≡ some a)
      × (target_id template o ≡ a.id)
      × (a.status ≡ active)
      × (a.kind ≡ standard)
      × (a.role ≡ worker)
      × (a.tier ≤ caller.tier)
unfolding check_target target_id is_active_worker
target_none caller template none e = absurd (ground (arith, e))
target_none caller template (some a) e =
    (a, refl, refl, ground (arith, e), ground (arith, e), ground (arith, e), ground (arith, e))

pub budget_none :
    (budget : Budget) (now : ℕ)
    → check_budget budget now ≡ none
    → (1 ≤ remaining_micro_usd budget) × (1 ≤ remaining_ms budget now)
unfolding check_budget
budget_none budget now e = ground (arith, e)

pub ended_ok :
    (o : Option ChildRecord)
    → finished_well o ≡ true
    → (c : ChildRecord) × (o ≡ some c) × (c.status ≡ some ok)
unfolding finished_well is_ok
ended_ok none h = absurd (ground (arith, h))
ended_ok (some c) h = (c, refl, ground (arith, h))
