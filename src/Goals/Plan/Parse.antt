-- ===== src/Goals/Plan/Parse.antt =====
-- parsePlan of goals/plan.ts. JSON.parse and the zod schema are one argument: the plan that a text gives.
use mr_robot.Common.{◌≡◌, refl, subst, Option, none, some, List, arith}
use mr_robot.Common.Text.{Text}
use mr_robot.Goals.Plan.{ProposedPlan}
use mr_robot.Goals.Plan.Coherent.{
  Refusal, Verdict, unfinished, coherent, refused, assert_plan_coherent,
}
use mr_robot.Goals.Plan.Extract.{extract_json}
use mr_robot.Goals.Plan.Accepted.{IsCoherent, accepted_plans_are_coherent}

pub data Parsed : Type 0 where
  no_object malformed undecided : Parsed
  incoherent : Refusal → Parsed
  parsed : ProposedPlan → Parsed

unfoldable pub parsed_as : ProposedPlan → Verdict → Parsed
parsed_as plan coherent = parsed plan
parsed_as plan (refused r) = incoherent r
parsed_as plan unfinished = undecided

unfoldable pub parse_plan : (Text → Option ProposedPlan) → Text → List Text → Parsed
parse_plan schema message known = elim (extract_json message) [
  | none ↦ no_object
  | some json ↦ elim (schema json) [
    | none ↦ malformed
    | some plan ↦ parsed_as plan (assert_plan_coherent plan known)
  ]
]

parsed-injective : (a b : ProposedPlan) → parsed a ≡ parsed b → a ≡ b
parsed-injective a b e = cc

-- A plan that is parsed out of a message is coherent, whatever the schema lets through.
pub parse_plan-IsCoherent :
    (schema : Text → Option ProposedPlan) (message : Text) (known : List Text) (plan : ProposedPlan)
    → parse_plan schema message known ≡ parsed plan
    → IsCoherent plan known
unfolding parse_plan parsed_as
parse_plan-IsCoherent schema message known plan = by_json (extract_json message)
  where
    of_verdict :
        (p : ProposedPlan) (v : Verdict)
        → assert_plan_coherent p known ≡ v
        → parsed_as p v ≡ parsed plan
        → IsCoherent plan known
    of_verdict p coherent e is =
        subst (λ x. IsCoherent x known) (parsed-injective p plan is)
          ((accepted_plans_are_coherent p known).1.0 e)
    of_verdict p (refused r) e is = absurd (ground (arith, is))
    of_verdict p unfinished e is = absurd (ground (arith, is))

    by_plan :
        (o : Option ProposedPlan)
        → (elim o as (λ x. Parsed) [
          | none ↦ malformed
          | some p ↦ parsed_as p (assert_plan_coherent p known)
        ])
          ≡ parsed plan
        → IsCoherent plan known
    by_plan none is = absurd (ground (arith, is))
    by_plan (some p) is = of_verdict p (assert_plan_coherent p known) refl is

    by_json :
        (o : Option Text)
        → (elim o as (λ x. Parsed) [
          | none ↦ no_object
          | some json ↦ elim (schema json) as (λ x. Parsed) [
            | none ↦ malformed
            | some p ↦ parsed_as p (assert_plan_coherent p known)
          ]
        ])
          ≡ parsed plan
        → IsCoherent plan known
    by_json none is = absurd (ground (arith, is))
    by_json (some json) is = by_plan (schema json) is
