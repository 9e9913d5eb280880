-- ===== src/Goals/Plan.antt =====
-- goals/plan.ts: a proposed plan, and the refusals that its schema cannot express. The bounds of the
-- schema belong to the parse of a plan, where they are an argument.
pub mod Chain
pub mod Cycle
pub mod Acyclic
pub mod Coherent
pub mod Checks
pub mod Accepted
pub mod Extract
pub mod Parse
pub mod Braces
use mr_robot.Common.{
  ℕ, zero, suc, Bool, true, false, not, Option, none, some, List, [], ◌∷◌, ◌++◌, map, length,
  if◌then◌else◌,
}
use mr_robot.Common.Text.{Text, text, ◌==◌}
use mr_robot.Common.Map.{Map, text_eq, get, set, has}

pub record Irreversible : Type 0 where
  pub tool_ref : Text
  pub why : Text

pub record PlanTask : Type 0 where
  pub id : Text
  pub title : Text
  pub template : Text
  pub depends_on : List Text
  pub acceptance : List Text
  pub irreversible : List Irreversible

pub record PlanMilestone : Type 0 where
  pub id : Text
  pub title : Text
  pub tasks : List PlanTask

pub record ProposedPlan : Type 0 where
  pub objective_title : Text
  pub success_criteria : List Text
  pub milestones : List PlanMilestone
  pub assumptions : List Text
  pub risks : List Text
  pub questions_for_operator : List Text

pub data Mark : Type 0 where
  opened closed : Mark

-- The path that closes a cycle, or the marks that the search leaves. The search is on fuel.
pub data Found : Type 0 where
  exhausted : Found
  cycle : List Text → Found
  clear : Map Text Mark → Found

-- `deps.get(id) ?? []`
unfoldable pub deps_of : Map Text (List Text) → Text → List Text
deps_of deps id = elim (get id deps) [ none ↦ [] | some ds ↦ ds ]

-- `stack.slice(stack.indexOf(id))`, for an id that is in the stack.
unfoldable pub slice_from : Text → List Text → List Text
slice_from id [] = []
slice_from id (x ∷ xs) = if x == id then x ∷ xs else slice_from id xs

-- A loop over ids that stops at the first that is found.
unfoldable pub each : (Text → Map Text Mark → Found) → List Text → Map Text Mark → Found
each visit [] marks = clear marks
each visit (d ∷ ds) marks = elim (visit d marks) [
  | exhausted ↦ exhausted
  | cycle path ↦ cycle path
  | clear more ↦ each visit ds more
]

-- What closes an id when its dependencies are clear; the stack is popped to what it was.
unfoldable pub close_id : Text → Found → Found
close_id id exhausted = exhausted
close_id id (cycle path) = cycle path
close_id id (clear marks) = clear (set id closed marks)

-- `walk`
unfoldable pub walk : ℕ → Map Text (List Text) → List Text → Text → Map Text Mark → Found
walk zero deps stack id marks = exhausted
walk (suc fuel) deps stack id marks =
    let inner = each (walk fuel deps (stack ++ id ∷ [])) (deps_of deps id) (set id opened marks) in
    elim (get id marks) [
      | some closed ↦ clear marks
      | some opened ↦ cycle (slice_from id stack ++ id ∷ [])
      | none ↦ close_id id inner
    ]

-- `new Map(tasks.map((t) => [t.id, t.dependsOn]))`
unfoldable pub deps_map : List PlanTask → Map Text (List Text) → Map Text (List Text)
deps_map [] deps = deps
deps_map (t ∷ tasks) deps = deps_map tasks (set t.id t.depends_on deps)

-- A walk goes no deeper than there are tasks, and once into an id that is none.
unfoldable pub find_cycle : List PlanTask → Found
find_cycle tasks =
    each (walk (suc (length tasks)) (deps_map tasks []) []) (map (λ (t : PlanTask). t.id) tasks) []
