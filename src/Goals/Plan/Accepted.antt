-- ===== src/Goals/Plan/Accepted.antt =====
-- Which plans assertPlanCoherent of goals/plan.ts accepts.
use mr_robot.Common.{
  ◌≡◌, ◌≢◌, refl, ap, ◌↔◌, ◌⊎◌, Bool, true, not, ◌&&◌, Option, none, some, is_some, List, [], ◌++◌,
  arith, All,
}
use mr_robot.Common.Text.{Text}
use mr_robot.Common.Map.{text_eq, has}
use mr_robot.Goals.Plan.{
  PlanTask, ProposedPlan, Found, exhausted, cycle, clear, deps_map, find_cycle,
}
use mr_robot.Goals.Plan.Chain.{IsCycle}
use mr_robot.Goals.Plan.Acyclic.{cycle_search_ends, reported_cycle_is_one, passed_plan_has_none}
use mr_robot.Goals.Plan.Coherent.{
  Refusal, Verdict, unfinished, coherent, refused, duplicate_id, tasks_in, milestone_ids, task_ids,
  first_duplicate, check_all_deps, check_known, or_coherent, after_cycle, assert_plan_coherent,
}
use mr_robot.Goals.Plan.Checks.{
  distinct, apart, apart_none, distinct-append, first_duplicate_none, DepsIn, check_all_deps-none,
  check_known-none,
}

-- What a plan must be: ids that are distinct over both levels, dependencies on other tasks of the plan
-- and with no cycle, and templates that are known when any are named.
pub record IsCoherent (plan : ProposedPlan) (known : List Text) : Type 0 where
  pub ids : distinct (milestone_ids plan ++ task_ids (tasks_in plan)) ≡ true
  pub deps : All (DepsIn (task_ids (tasks_in plan))) (tasks_in plan)
  pub acyclic : (path : List Text) → IsCycle (deps_map (tasks_in plan) []) path → ⊥
  pub templates : (known ≡ []) ⊎ All (λ (t : PlanTask). has t.template known ≡ true) (tasks_in plan)

abbrev Decides : Verdict → Type 0 → Type 0
Decides v P = (v ≢ unfinished) × ((v ≡ coherent) ↔ P)

after_cycle-Decides :
    (known : List Text) (tasks : List PlanTask)
    → Decides (after_cycle (find_cycle tasks) known tasks) (
        ((path : List Text) → IsCycle (deps_map tasks []) path → ⊥)
        × ((known ≡ []) ⊎ All (λ (t : PlanTask). has t.template known ≡ true) tasks))
unfolding after_cycle or_coherent
after_cycle-Decides known tasks = by_found (find_cycle tasks) refl
  where
    after_known : (o : Option Refusal) → or_coherent o ≡ unfinished → ⊥
    after_known none h = absurd (ground (arith, h))
    after_known (some r) h = absurd (ground (arith, h))

    known_of : (o : Option Refusal) → or_coherent o ≡ coherent → o ≡ none
    known_of none h = refl
    known_of (some r) h = absurd (ground (arith, h))

    by_found :
        (found : Found)
        → find_cycle tasks ≡ found
        → Decides (after_cycle found known tasks) (
            ((path : List Text) → IsCycle (deps_map tasks []) path → ⊥)
            × ((known ≡ []) ⊎ All (λ (t : PlanTask). has t.template known ≡ true) tasks))
    by_found exhausted e = absurd (cycle_search_ends tasks e)
    by_found (cycle path) e = (
      λ h. absurd (ground (arith, h)),
      (
        λ h. absurd (ground (arith, h)),
        λ h. absurd (h.0 path (reported_cycle_is_one tasks path e)),
      ),
    )
    by_found (clear marks) e = (
      λ h. after_known (check_known known tasks) h,
      (
        λ h. (
          λ path. passed_plan_has_none tasks marks path e,
          (check_known-none known tasks).0 (known_of (check_known known tasks) h),
        ),
        λ h. ap or_coherent ((check_known-none known tasks).1 h.1),
      ),
    )

-- A check that refuses before the rest.
check-Decides :
    {A P Q : Type 0} {later : Verdict} (o : Option A) (f : A → Refusal)
    → (o ≡ none) ↔ P
    → Decides later Q
    → Decides (elim o as (λ x. Verdict) [ none ↦ later | some a ↦ refused (f a) ]) (P × Q)
check-Decides none f p q = (q.0, (λ e. (p.0 refl, q.1.0 e), λ h. q.1.1 h.1))
check-Decides (some a) f p q = (
  λ h. absurd (ground (arith, h)),
  (λ h. absurd (ground (arith, h)), λ h. absurd (ground (arith, p.1 h.0))),
)

is_none : {A : Type 0} (o : Option A) (b : Bool) → is_some o ≡ not b → (o ≡ none) ↔ (b ≡ true)
is_none none b e = ground (arith, e)
is_none (some a) b e = ground (arith, e)

-- What the checks find in order.
abbrev Passes : ProposedPlan → List Text → Type 0
Passes plan known =
    ((distinct (milestone_ids plan) && apart [] (milestone_ids plan)) ≡ true)
    × (((distinct (task_ids (tasks_in plan))
            && apart (milestone_ids plan) (task_ids (tasks_in plan)))
          ≡ true)
        × (All (DepsIn (task_ids (tasks_in plan))) (tasks_in plan)
            × (((path : List Text) → IsCycle (deps_map (tasks_in plan) []) path → ⊥)
                × ((known ≡ [])
                    ⊎ All (λ (t : PlanTask). has t.template known ≡ true) (tasks_in plan)))))

assert_plan_coherent-Decides :
    (plan : ProposedPlan) (known : List Text)
    → Decides (assert_plan_coherent plan known) (Passes plan known)
unfolding assert_plan_coherent
assert_plan_coherent-Decides plan known =
    check-Decides (first_duplicate [] (milestone_ids plan)) duplicate_id
      (is_none (first_duplicate [] (milestone_ids plan))
        (distinct (milestone_ids plan) && apart [] (milestone_ids plan))
        (first_duplicate_none [] (milestone_ids plan)))
      (check-Decides (first_duplicate (milestone_ids plan) (task_ids (tasks_in plan))) duplicate_id
        (is_none (first_duplicate (milestone_ids plan) (task_ids (tasks_in plan)))
          (distinct (task_ids (tasks_in plan))
            && apart (milestone_ids plan) (task_ids (tasks_in plan)))
          (first_duplicate_none (milestone_ids plan) (task_ids (tasks_in plan))))
        (check-Decides (check_all_deps (task_ids (tasks_in plan)) (tasks_in plan)) (λ r. r)
          (check_all_deps-none (task_ids (tasks_in plan)) (tasks_in plan))
          (after_cycle-Decides known (tasks_in plan))))

-- The checks of a plan find an answer, and they accept it exactly when its ids are distinct over both
-- levels, every task depends on other tasks of the plan, no dependencies form a cycle, and every
-- template is known when any are named.
pub accepted_plans_are_coherent :
    (plan : ProposedPlan) (known : List Text)
    → (assert_plan_coherent plan known ≢ unfinished)
      × ((assert_plan_coherent plan known ≡ coherent) ↔ IsCoherent plan known)
accepted_plans_are_coherent plan known = (
  (assert_plan_coherent-Decides plan known).0,
  (
    λ e. to_coherent ((assert_plan_coherent-Decides plan known).1.0 e),
    λ h. (assert_plan_coherent-Decides plan known).1.1 (of_coherent h),
  ),
)
  where
    to_coherent : Passes plan known → IsCoherent plan known
    to_coherent p = record {
      ids =
          ground
            (arith, p.0, p.1.0, distinct-append (milestone_ids plan) (task_ids (tasks_in plan)));
      deps = p.1.1.0;
      acyclic = p.1.1.1.0;
      templates = p.1.1.1.1;
    }

    of_coherent : IsCoherent plan known → Passes plan known
    of_coherent h = (
      ground (
        arith,
        h.ids,
        apart_none (milestone_ids plan),
        distinct-append (milestone_ids plan) (task_ids (tasks_in plan)),
      ),
      (
        ground (arith, h.ids, distinct-append (milestone_ids plan) (task_ids (tasks_in plan))),
        (h.deps, (h.acyclic, h.templates)),
      ),
    )
