-- ===== src/Goals/Plan/Coherent.antt =====
-- assertPlanCoherent of goals/plan.ts: the refusals in the order of the code.
use mr_robot.Common.{not, Option, none, some, List, [], ◌∷◌, ◌++◌, map, if◌then◌else◌}
use mr_robot.Common.Text.{Text, ◌==◌}
use mr_robot.Common.Map.{text_eq, has}
use mr_robot.Goals.Plan.{
  PlanTask, PlanMilestone, ProposedPlan, Found, exhausted, cycle, clear, find_cycle,
}

pub record Placed : Type 0 where
  pub milestone_id : Text
  pub task : PlanTask

pub data Refusal : Type 0 where
  duplicate_id : Text → Refusal
  depends_on_itself : Text → Refusal
  depends_on_stranger : Text → Text → Refusal
  dependency_cycle : List Text → Refusal
  unknown_template : Text → Text → List Text → Refusal

-- What the checks end in; the search for a cycle may not end.
pub data Verdict : Type 0 where
  unfinished coherent : Verdict
  refused : Refusal → Verdict

-- `tasksOf`
unfoldable pub tasks_of : List PlanMilestone → List Placed
tasks_of [] = []
tasks_of (m ∷ milestones) =
    map (λ (t : PlanTask). record { milestone_id = m.id; task = t }) m.tasks ++ tasks_of milestones

abbrev pub tasks_in : ProposedPlan → List PlanTask
tasks_in plan = map (λ (p : Placed). p.task) (tasks_of plan.milestones)

abbrev pub milestone_ids : ProposedPlan → List Text
milestone_ids plan = map (λ (m : PlanMilestone). m.id) plan.milestones

abbrev pub task_ids : List PlanTask → List Text
task_ids tasks = map (λ (t : PlanTask). t.id) tasks

-- The first id that is in `ids` already, as they are added.
unfoldable pub first_duplicate : List Text → List Text → Option Text
first_duplicate ids [] = none
first_duplicate ids (id ∷ rest) =
    let later = first_duplicate (ids ++ id ∷ []) rest in if has id ids then some id else later

-- The dependencies of one task.
unfoldable pub check_deps : List Text → Text → List Text → Option Refusal
check_deps known id [] = none
check_deps known id (dep ∷ deps) =
    let rest = check_deps known id deps in
    if dep == id
    then some (depends_on_itself id)
    else if not (has dep known)
    then some (depends_on_stranger id dep)
    else rest

unfoldable pub check_all_deps : List Text → List PlanTask → Option Refusal
check_all_deps known [] = none
check_all_deps known (t ∷ tasks) = elim (check_deps known t.id t.depends_on) [
  | none ↦ check_all_deps known tasks
  | some r ↦ some r
]

unfoldable pub check_templates : List Text → List PlanTask → Option Refusal
check_templates known [] = none
check_templates known (t ∷ tasks) =
    let rest = check_templates known tasks in
    if not (has t.template known) then some (unknown_template t.id t.template known) else rest

-- `if (knownTemplates.length > 0)`
unfoldable pub check_known : List Text → List PlanTask → Option Refusal
check_known [] tasks = none
check_known (k ∷ known) tasks = check_templates (k ∷ known) tasks

unfoldable pub or_coherent : Option Refusal → Verdict
or_coherent none = coherent
or_coherent (some r) = refused r

unfoldable pub after_cycle : Found → List Text → List PlanTask → Verdict
after_cycle exhausted known tasks = unfinished
after_cycle (cycle path) known tasks = refused (dependency_cycle path)
after_cycle (clear marks) known tasks = or_coherent (check_known known tasks)

unfoldable pub assert_plan_coherent : ProposedPlan → List Text → Verdict
assert_plan_coherent plan known = elim (first_duplicate [] (milestone_ids plan)) [
  | some id ↦ refused (duplicate_id id)
  | none ↦ elim (first_duplicate (milestone_ids plan) (task_ids (tasks_in plan))) [
    | some id ↦ refused (duplicate_id id)
    | none ↦ elim (check_all_deps (task_ids (tasks_in plan)) (tasks_in plan)) [
      | some r ↦ refused r
      | none ↦ after_cycle (find_cycle (tasks_in plan)) known (tasks_in plan)
    ]
  ]
]
