-- ===== src/Goals/Plan/Acyclic.antt =====
-- What the search of goals/plan.ts for a cycle decides: it ends, what it reports is a cycle, and what
-- it passes has none.
use mr_robot.Common.{
  suc, ◌≤◌, ◌≡◌, ◌≢◌, refl, ap, subst, ◌⊎◌, inl, inr, true, List, [], ◌∷◌, ◌++◌, map, length, arith,
}
use mathlib.Core.WellFounded.{Acc}
use mr_robot.Common.Text.{Text}
use mr_robot.Common.Map.{Map, text_eq, get, set, has, get-set}
use mr_robot.Goals.Plan.{
  PlanTask, Mark, Found, exhausted, cycle, clear, deps_of, walk, deps_map, find_cycle,
}
use mr_robot.Goals.Plan.Cycle.{each-Kept, walk-Kept}
use mr_robot.Goals.Plan.Chain.{Deps, Needs, Leads, IsCycle, Leads-on, unmarked, not_in_none, Kept}

abbrev ids_of : List PlanTask → List Text
ids_of tasks = map (λ (t : PlanTask). t.id) tasks

-- An id that is no task's has the dependencies it had.
get-deps_map :
    (tasks : List PlanTask) (deps : Deps) (id : Text)
    → (has id (ids_of tasks) ≡ true) ⊎ (get id (deps_map tasks deps) ≡ get id deps)
unfolding has deps_map
get-deps_map [] deps id = inr refl
get-deps_map (t ∷ tasks) deps id =
    ground
      (arith, get-deps_map tasks (set t.id t.depends_on deps) id, get-set t.id id t.depends_on deps)

known :
    (tasks : List PlanTask) (id : Text)
    → (has id (ids_of tasks) ≡ true) ⊎ (deps_of (deps_map tasks []) id ≡ [])
unfolding deps_of get
known tasks id = elim (get-deps_map tasks [] id) [
  | inl at ↦ inl at
  | inr same ↦ inr (rw (same, deps_of) refl)
]

unmarked_bound : (nodes : List Text) (marks : Map Text Mark) → unmarked nodes marks ≤ length nodes
unfolding unmarked
unmarked_bound [] marks = omega arith
unmarked_bound (n ∷ nodes) marks = ground (arith, unmarked_bound nodes marks)

length-ids_of : (tasks : List PlanTask) → length (ids_of tasks) ≡ length tasks
length-ids_of [] = refl
length-ids_of (t ∷ tasks) = ap suc (length-ids_of tasks)

-- What a search of the tasks decides: when it finds nothing, the chains of every task end.
abbrev Verdict : List PlanTask → Found → Type 0
Verdict tasks =
    Kept (deps_map tasks []) (ids_of tasks) [] []
      ((t : Text) → has t (ids_of tasks) ≡ true → Acc (Needs (deps_map tasks [])) t)

find_cycle-Verdict : (tasks : List PlanTask) → Verdict tasks (find_cycle tasks)
unfolding find_cycle get
find_cycle-Verdict tasks =
    each-Kept (deps_map tasks []) (ids_of tasks) (walk (suc (length tasks)) (deps_map tasks []) [])
      [] (unmarked (ids_of tasks) []) (ids_of tasks)
      (λ d marks at fits few.
        walk-Kept (deps_map tasks []) (ids_of tasks) (known tasks) (suc (length tasks)) [] d marks
          fits tt (omega (arith, few, unmarked_bound (ids_of tasks) [], length-ids_of tasks)))
      []
      (record {
        ends = λ k e. absurd (ground (arith, e));
        held = λ k e. absurd (ground (arith, e));
      })
      (omega arith)

-- An id whose chains of dependencies all end is in no cycle: go round it.
on_no_cycle :
    (deps : Deps) (id : Text)
    → Acc (Needs deps) id
    → (rest : List Text) → Leads deps (id ∷ rest) id
    → ⊥
on_no_cycle deps id (Acc.intro _ smaller) [] leads = on_no_cycle deps id (smaller id leads) [] leads
on_no_cycle deps id (Acc.intro _ smaller) (y ∷ rest) leads =
    on_no_cycle deps y (smaller y leads.0) (rest ++ id ∷ [])
      (Leads-on deps (y ∷ rest) id y leads.1 leads.0)

-- The first id of a cycle has dependencies, so it is a task's.
starts_at_task :
    (tasks : List PlanTask) (id : Text) (rest : List Text)
    → Leads (deps_map tasks []) (id ∷ rest) id
    → has id (ids_of tasks) ≡ true
starts_at_task tasks id rest leads = elim (known tasks id) [
  | inl at ↦ at
  | inr leaf ↦ absurd (no_start rest leads leaf)
]
  where
    no_start :
        (rest : List Text)
        → Leads (deps_map tasks []) (id ∷ rest) id
        → deps_of (deps_map tasks []) id ≡ []
        → ⊥
    no_start [] leads leaf = not_in_none id (deps_of (deps_map tasks []) id) leads leaf
    no_start (y ∷ rest) leads leaf = not_in_none y (deps_of (deps_map tasks []) id) leads.0 leaf

-- The search for a cycle ends within its fuel, for every list of tasks: with ids that repeat and
-- dependencies that are no tasks.
pub cycle_search_ends : (tasks : List PlanTask) → find_cycle tasks ≢ exhausted
cycle_search_ends tasks e = subst (Verdict tasks) e (find_cycle-Verdict tasks)

-- A path that the search reports is a cycle of the dependencies: it ends where it starts, and each id
-- on it depends on the next.
pub reported_cycle_is_one :
    (tasks : List PlanTask) (path : List Text)
    → find_cycle tasks ≡ cycle path
    → IsCycle (deps_map tasks []) path
reported_cycle_is_one tasks path e = subst (Verdict tasks) e (find_cycle-Verdict tasks)

-- Tasks in which the search finds nothing have no cycle of dependencies.
pub passed_plan_has_none :
    (tasks : List PlanTask) (marks : Map Text Mark) (path : List Text)
    → find_cycle tasks ≡ clear marks
    → IsCycle (deps_map tasks []) path
    → ⊥
passed_plan_has_none tasks marks path e (id, rest, is, leads) =
    on_no_cycle (deps_map tasks []) id
      ((subst (Verdict tasks) e (find_cycle-Verdict tasks)).2 id
        (starts_at_task tasks id rest leads))
      rest leads
