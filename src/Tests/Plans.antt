-- ===== src/Tests/Plans.antt =====
-- Plans and delegations at concrete inputs.
use mr_robot.Common.{◌≡◌, ◌≢◌, ◌↔◌, refl, false, none, some, List, [], ◌∷◌, ◌++◌}
use mr_robot.Common.Text.{Text, text, is_prefix, ◌==◌}
use mr_robot.Common.Map.{text_eq, get, has, set}
use mr_robot.Goals.Plan.{
  PlanTask, ProposedPlan, exhausted, cycle, find_cycle, close_id, deps_map, deps_of, each,
  slice_from, walk,
}
use mr_robot.Goals.Plan.Acyclic.{cycle_search_ends}
use mr_robot.Goals.Plan.Coherent.{
  unfinished, coherent, assert_plan_coherent, after_cycle, check_all_deps, check_deps, check_known,
  check_templates, first_duplicate, or_coherent, tasks_of,
}
use mr_robot.Goals.Plan.Accepted.{IsCoherent, accepted_plans_are_coherent}
use mr_robot.Goals.Plan.Extract.{extract_json, fenced}
use mr_robot.Goals.Plan.Braces.{IsBalanced, IsQuoted, unit_eq, extraction_finds_object}

abbrev pub task : Text → List Text → PlanTask
task id deps = record {
  id = id;
  title = text "t";
  template = text "writer";
  depends_on = deps;
  acceptance = text "done" ∷ [];
  irreversible = [];
}

abbrev pub plan : List PlanTask → ProposedPlan
plan tasks = record {
  objective_title = text "o";
  success_criteria = text "c" ∷ [];
  milestones = record { id = text "m"; title = text "m"; tasks = tasks } ∷ [];
  assumptions = [];
  risks = [];
  questions_for_operator = [];
}

abbrev knot : List PlanTask
knot = task (text "a") (text "b" ∷ []) ∷ task (text "b") (text "a" ∷ []) ∷ []

knot_found : find_cycle knot ≡ cycle (text "a" ∷ text "b" ∷ text "a" ∷ [])
unfolding find_cycle each walk get close_id deps_of deps_map set ◌==◌ slice_from
knot_found = refl

cycle_search_ends_example : find_cycle knot ≢ exhausted
cycle_search_ends_example = cycle_search_ends knot

abbrev pub steps : ProposedPlan
steps = plan (task (text "a") [] ∷ task (text "b") (text "a" ∷ []) ∷ [])

steps_pass : assert_plan_coherent steps (text "writer" ∷ []) ≡ coherent
unfolding assert_plan_coherent first_duplicate has tasks_of ◌==◌ check_all_deps check_deps
    after_cycle find_cycle each walk get close_id deps_of deps_map set or_coherent check_known
    check_templates slice_from
steps_pass = refl

accepted_plans_are_coherent_example :
    (assert_plan_coherent steps (text "writer" ∷ []) ≢ unfinished)
    × ((assert_plan_coherent steps (text "writer" ∷ []) ≡ coherent)
        ↔ IsCoherent steps (text "writer" ∷ []))
accepted_plans_are_coherent_example = accepted_plans_are_coherent steps (text "writer" ∷ [])

-- A string that holds a brace, after a word and before another.
inside : IsBalanced (b'"' ∷ b'}' ∷ b'"' ∷ [])
inside = IsBalanced.quote (IsQuoted.plain b'}' refl refl IsQuoted.ended) IsBalanced.ended

no_fence : fenced (text "hi " ++ b'{' ∷ ((b'"' ∷ b'}' ∷ b'"' ∷ []) ++ b'}' ∷ text " so")) ≡ none
unfolding fenced is_prefix
no_fence = refl

no_brace : has b'{' (text "hi ") ≡ false
unfolding has
no_brace = refl

extraction_finds_object_example :
    extract_json (text "hi " ++ b'{' ∷ ((b'"' ∷ b'}' ∷ b'"' ∷ []) ++ b'}' ∷ text " so"))
    ≡ some (b'{' ∷ ((b'"' ∷ b'}' ∷ b'"' ∷ []) ++ b'}' ∷ []))
extraction_finds_object_example =
    extraction_finds_object (text "hi ") (b'"' ∷ b'}' ∷ b'"' ∷ []) (text " so") no_fence no_brace
      inside
