-- ===== src/Tests/Delegations.antt =====
-- A plan of two tasks that is adopted and handed out.
use mr_robot.Common.{
  ℕ, ◌+◌, not, ◌&&◌, ◌≡◌, ◌≤◌, refl, sym, ◌∙◌, subst, some-injective, true, false, Option, none,
  some, [], ◌∷◌, arith, length, if◌then◌else◌,
}
use mr_robot.Common.Text.{Text, text, ◌==◌}
use mr_robot.Common.Map.{text_eq, get, has, set}
use mr_robot.Goals.Plan.{
  PlanTask, ProposedPlan, close_id, deps_map, deps_of, each, find_cycle, slice_from, walk,
}
use mr_robot.Runtime.Budget.{Budget, add, charge, check, overrun, remaining_micro_usd, remaining_ms}
use mr_robot.Runtime.Delegation.{
  ok, active, standard, orchestrator, worker, AgentRecord, Caller, AdoptedPlan, ChildRecord, Launch,
  Delegation, proposed, Written, written, WrittenTree, waits_on, create, state_of, adopt_plan,
  adopt_checked, adopt_opened, adopt_raw, adopt_written, delegable, is_active_worker, open_state,
  refuse, task_map,
}
use mr_robot.Runtime.Delegation.Handoff.{
  RunOutcome, finished_well, delegate, settle, admit, check_brief, check_budget, check_place,
  check_target, delegate_asked, delegate_planned, delegate_task, first_refusal, first_waiting,
  is_ok, set_status, target_id,
}
use mr_robot.Runtime.Delegation.Reached.{
  Reaches, forgotten, dependencies_finish_first, delegation_is_bounded,
}
use mr_robot.Runtime.Delegation.Depth.{launched}
use mr_robot.Runtime.Delegation.Launched.{launch_passes_checks, child_spend_stays_in_cap}
use mr_robot.Runtime.Delegation.Admissible.{IsAdmissible}
use mr_robot.Tests.Plans.{task, steps}
use mr_robot.Runtime.Cron.Match.{is_space, trim, trim_end, trim_start}
use mr_robot.Goals.Plan.Coherent.{
  after_cycle, assert_plan_coherent, check_all_deps, check_deps, check_known, check_templates,
  first_duplicate, or_coherent, tasks_of,
}

abbrev ceo : Caller
ceo = record { run_id = text "p"; agent_id = text "ceo"; tier = 2; project_id = some (text "m") }

abbrev writer : AgentRecord
writer = record {
  id = text "writer";
  status = active;
  kind = standard;
  role = worker;
  tier = 1;
  max_children = none;
}

abbrev chief : AgentRecord
chief = record {
  id = text "ceo";
  status = active;
  kind = standard;
  role = orchestrator;
  tier = 2;
  max_children = some 2;
}

abbrev agents : Text → Option AgentRecord
agents id = if id == text "ceo" then some chief else some writer

abbrev tree : WrittenTree
tree = record {
  objective_goal_id = text "g0";
  tasks = (text "a", text "g1") ∷ (text "b", text "g2") ∷ [];
}

abbrev budget : Budget
budget = record {
  caps = record { usd_max = 100; max_llm_calls = 9; max_tool_calls = 9; wallclock_ms = 1000 };
  started_at = some 0;
  cost_micro_usd = 10;
  llm_calls = 1;
  tool_calls = 1;
}

-- The same budget when the child has ended: the tool call that waited has been counted.
abbrev waited : Budget
waited = record budget { tool_calls = 2 }

abbrev write : ProposedPlan → Written
write p = written tree

abbrev outcome : RunOutcome
outcome = record { status = ok; cost_micro_usd = 30; tainted = false }

abbrev s1 : Delegation
s1 = (adopt_plan ceo (proposed steps) (writer ∷ []) write create).0

abbrev s2 : Delegation
s2 = (delegate ceo agents budget 0 (text "c1") (some (text "a")) (some (text "go")) s1).0

abbrev s3 : Delegation
s3 = (settle (text "p") (text "a") (text "c1") outcome budget 9 s2).0

abbrev s4 : Delegation
s4 = (delegate ceo agents budget 9 (text "c2") (some (text "b")) (some (text "go")) s3).0

abbrev limit : Text → ℕ
limit id = 2

abbrev task_a : PlanTask
task_a = task (text "a") []

abbrev task_b : PlanTask
task_b = task (text "b") (text "a" ∷ [])

abbrev adopted : AdoptedPlan
adopted = record { tree = tree; tasks = (text "a", task_a) ∷ (text "b", task_b) ∷ [] }

abbrev launch : Launch
launch = record {
  agent_id = text "writer";
  task = task_a;
  brief = text "go";
  goal_id = text "g1";
  usd_max = 90;
  wallclock_ms = 1000;
}

abbrev child : ChildRecord
child = record { child_run_id = text "c2"; status = none }

launched_a :
    (delegate ceo agents budget 0 (text "c1") (some (text "a")) (some (text "go")) s1).1
    ≡ waits_on launch
unfolding delegate delegate_asked check_brief ◌==◌ trim trim_end trim_start is_space has adopt_plan
    adopt_opened state_of get adopt_raw adopt_checked assert_plan_coherent first_duplicate tasks_of
    set after_cycle check_all_deps check_deps check_known check_templates or_coherent close_id
    deps_map deps_of each find_cycle slice_from walk remaining_micro_usd remaining_ms admit
    check_budget check_place check_target delegate_planned delegate_task finished_well first_refusal
    first_waiting is_ok target_id adopt_written delegable is_active_worker open_state refuse
    task_map
launched_a = refl

fresh_1 : get (text "c1") s1.runs ≡ none
unfolding get adopt_plan adopt_opened state_of adopt_raw adopt_checked assert_plan_coherent
    first_duplicate has tasks_of ◌==◌ check_all_deps check_deps after_cycle find_cycle each walk
    close_id set check_known check_templates or_coherent deps_map deps_of slice_from adopt_written
    delegable is_active_worker open_state refuse task_map
fresh_1 = refl

fresh_2 : get (text "c2") s3.runs ≡ none
unfolding get settle delegate delegate_asked check_brief ◌==◌ trim trim_end trim_start is_space has
    adopt_plan adopt_opened state_of adopt_raw adopt_checked assert_plan_coherent first_duplicate
    set after_cycle check_all_deps check_deps check_known check_templates or_coherent tasks_of
    close_id deps_map deps_of each find_cycle slice_from walk add charge check overrun
    remaining_micro_usd remaining_ms admit check_budget check_place check_target delegate_planned
    delegate_task finished_well first_refusal first_waiting is_ok set_status target_id adopt_written
    delegable is_active_worker open_state refuse task_map
fresh_2 = refl

abbrev child_a : ChildRecord
child_a = record { child_run_id = text "c1"; status = none }

served_a : get (text "a") (state_of (text "p") s2).children ≡ some child_a
unfolding get state_of delegate delegate_asked check_brief ◌==◌ trim trim_end trim_start is_space
    has adopt_plan adopt_opened adopt_raw adopt_checked assert_plan_coherent first_duplicate
    tasks_of set after_cycle check_all_deps check_deps check_known check_templates or_coherent
    close_id deps_map deps_of each find_cycle slice_from walk remaining_micro_usd remaining_ms admit
    check_budget check_place check_target delegate_planned delegate_task finished_well first_refusal
    first_waiting is_ok target_id adopt_written delegable is_active_worker open_state refuse
    task_map
served_a = refl

pending_a :
    (c : ChildRecord)
    → get (text "a") (state_of (text "p") s2).children ≡ some c
    → (c.child_run_id == text "c1") ≡ true
    → c.status ≡ none
pending_a c at same =
    subst (λ (x : ChildRecord). x.status ≡ none) (some-injective child_a c (sym served_a ∙ at)) refl

has_plan : (state_of (text "p") s4).adopted ≡ some adopted
unfolding state_of get delegate delegate_asked check_brief ◌==◌ trim trim_end trim_start is_space
    has settle adopt_plan adopt_opened adopt_raw adopt_checked assert_plan_coherent first_duplicate
    set after_cycle check_all_deps check_deps check_known check_templates or_coherent tasks_of
    close_id deps_map deps_of each find_cycle slice_from walk add charge check overrun
    remaining_micro_usd remaining_ms admit check_budget check_place check_target delegate_planned
    delegate_task finished_well first_refusal first_waiting is_ok set_status target_id adopt_written
    delegable is_active_worker open_state refuse task_map
has_plan = refl

has_child : get (text "b") (state_of (text "p") s4).children ≡ some child
unfolding state_of get delegate delegate_asked check_brief ◌==◌ trim trim_end trim_start is_space
    has settle adopt_plan adopt_opened adopt_raw adopt_checked assert_plan_coherent first_duplicate
    set after_cycle check_all_deps check_deps check_known check_templates or_coherent tasks_of
    close_id deps_map deps_of each find_cycle slice_from walk add charge check overrun
    remaining_micro_usd remaining_ms admit check_budget check_place check_target delegate_planned
    delegate_task finished_well first_refusal first_waiting is_ok set_status target_id adopt_written
    delegable is_active_worker open_state refuse task_map
has_child = refl

has_task : get (text "b") adopted.tasks ≡ some task_b
unfolding get ◌==◌
has_task = refl

needs_a : has (text "a") task_b.depends_on ≡ true
unfolding has ◌==◌
needs_a = refl

trace : Reaches limit s4
unfolding ◌==◌
trace =
    Reaches.delegates ceo agents budget 9 (text "c2") (some (text "b")) (some (text "go")) at_most
      fresh_2
      (Reaches.settles (text "p") (text "a") (text "c1") outcome budget 9 pending_a (
        Reaches.delegates ceo agents budget 0 (text "c1") (some (text "a")) (some (text "go"))
          at_most fresh_1
          (Reaches.adopts ceo (proposed steps) (writer ∷ []) write Reaches.creates)))
  where
    at_most : 2 ≤ 2
    at_most = omega arith

dependencies_finish_first_example :
    finished_well (get (text "a") (state_of (text "p") s4).children) ≡ true
dependencies_finish_first_example =
    dependencies_finish_first limit s4 (text "p") (text "b") (text "a") adopted task_b child trace
      has_plan has_task has_child needs_a

delegation_is_bounded_example :
    length (state_of (text "c1") s4).children
    ≤ (if launched (text "c1") s4.log && not (forgotten (text "c1") trace) then 0 else 2)
delegation_is_bounded_example = delegation_is_bounded limit s4 (text "c1") trace

launch_passes_checks_example : IsAdmissible ceo agents budget 0 (some (text "a")) s1 launch
launch_passes_checks_example =
    launch_passes_checks ceo agents budget 0 (text "c1") (some (text "a")) (some (text "go")) s1
      launch launched_a

child_spend_stays_in_cap_example :
    ((settle (text "p") (text "a") (text "c1") outcome waited 9 s2).1.cost_micro_usd ≡ 10 + 30)
    × ((settle (text "p") (text "a") (text "c1") outcome waited 9 s2).1.cost_micro_usd ≤ 100)
child_spend_stays_in_cap_example =
    child_spend_stays_in_cap ceo agents budget waited 0 9 (text "c1") (some (text "a"))
      (some (text "go")) s1 s2 launch (text "a") outcome launched_a refl refl (omega arith)
