-- ===== src/Policy/Gate/Laws.antt =====
-- What a verdict of policy/gate.ts means.
use mr_robot.Common.{
  ℕ, ◌≡◌, ◌≢◌, sym, ◌∙◌, ◌≤◌, ◌⊎◌, inl, inr, true, false, none, some, arith, Option-cases,
}
use mr_robot.Events.Canonical.{Fields}
use mr_robot.Policy.Gate.{
  agent, read, Taint, clean, tainted, Decision, allow, needs_human, deny, quarantine, View,
  GateInput, Verdict, mentions_fields, namespace_refusal, risk_verdict, rule, decide,
}

-- The facts that no human can lift.
pub record Permitted (input : GateInput) : Type 0 where
  pub exposed : input.view.exposure ≡ agent
  pub listed : input.manifest_allows ≡ true
  pub unprotected : mentions_fields input.args ≡ false
  pub own_namespace :
      namespace_refusal input.view.namespace_arg input.scope.project_id input.args ≡ none

-- How much a decision lets through.
unfoldable pub strictness : Decision → ℕ
strictness allow = 0
strictness quarantine = 1
strictness needs_human = 2
strictness deny = 3

risk_verdict_never_denies :
    (view : View) (taint : Taint) → (risk_verdict view taint).decision ≢ deny
unfolding risk_verdict
risk_verdict_never_denies view taint h = ground arith

pub rule_denies :
    (input : GateInput)
    → ((rule input).decision ≢ deny)
    → Permitted input × (rule input ≡ risk_verdict input.view input.scope.taint)
unfolding rule
rule_denies input h =
    elim (Option-cases
      (namespace_refusal input.view.namespace_arg input.scope.project_id input.args)) [
        | inl own ↦ (
          record {
            exposed = ground (arith, h);
            listed = ground (arith, h);
            unprotected = ground (arith, h);
            own_namespace = own;
          },
          ground (arith, h),
        )
        | inr (why, refused) ↦ absurd (h (ground arith))
      ]

pub Permitted-rule :
    (input : GateInput) → Permitted input → rule input ≡ risk_verdict input.view input.scope.taint
unfolding rule
Permitted-rule input p = ground arith

-- The arguments, which the model writes, can only refuse: of two calls that differ in their arguments
-- alone, neither denied, the verdicts are the same.
pub arguments_only_refuse :
    (input : GateInput) (args other : Fields)
    → (rule (record input { args = args })).decision ≢ deny
    → (rule (record input { args = other })).decision ≢ deny
    → rule (record input { args = args }) ≡ rule (record input { args = other })
arguments_only_refuse input args other h k =
    (rule_denies (record input { args = args }) h).1
    ∙ sym (rule_denies (record input { args = other }) k).1

abbrev pub with_taint : Taint → GateInput → GateInput
with_taint t input = record input { scope = record (input.scope) { taint = t } }

-- Tainting a run never lets more through: the decision on a tainted run is at least as strict as on the
-- same run clean, in the order allow, quarantine, needs-human, deny.
pub taint_never_loosens :
    (input : GateInput)
    → strictness (rule (with_taint clean input)).decision
      ≤ strictness (rule (with_taint tainted input)).decision
unfolding rule risk_verdict strictness
taint_never_loosens input = ground arith

-- A call that `decide` answers and that could change something in a tainted run waits for a human or is
-- denied: tainted runs write nothing on their own.
pub tainted_write_waits :
    (input : GateInput) {verdict : Verdict}
    → decide input ≡ some verdict
    → input.scope.taint ≡ tainted
    → input.view.risk ≢ read
    → (verdict.decision ≡ needs_human) ⊎ (verdict.decision ≡ deny)
unfolding decide rule risk_verdict
tainted_write_waits input h t r = ground arith
