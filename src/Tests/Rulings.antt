-- ===== src/Tests/Rulings.antt =====
-- The gate at concrete calls.
use mr_robot.Common.{◌≡◌, ◌≢◌, ◌↔◌, refl, true, false, none, some, arith}
use mr_robot.Common.Text.{Text, text, lower, ◌==◌}
use mr_robot.Events.Canonical.{Json, Fields, str, obj, end, field}
use mr_robot.Policy.Gate.{
  agent, Risk, read, write, Taint, clean, tainted, allow, allowed, addresses, needs_human, deny,
  GateInput, Verdict, mentions_fields, namespace_refusal, tainted_run, mentions_protected,
  is_protected, protected_from, names_protected, rule, risk_verdict, decide, parses,
}
use mr_robot.Policy.Gate.Laws.{arguments_only_refuse}
use mr_robot.Policy.Gate.Allowed.{RunsAlone, allowed_exactly}
use mr_robot.Policy.Gate.Paths.{StringIn, mentions_protected_exactly}

abbrev pub call : Risk → Taint → GateInput
call risk taint = record {
  view = record {
    exposure = agent;
    risk = risk;
    taints = false;
    quarantine = false;
    namespace_arg = some (text "none");
  };
  scope = record { run_id = text "r"; agent_id = text "a"; taint = taint; project_id = none };
  manifest_allows = true;
  tool_ref = text "fs/write";
  args = field (text "path") (str (text "x")) end;
}

abbrev other : Fields
other = field (text "path") (str (text "y")) end

passes : (rule (record (call write clean) { args = other })).decision ≢ deny
unfolding rule risk_verdict mentions_fields protected_from names_protected lower ◌==◌
    namespace_refusal
passes = λ h. ground arith

passes_as_well : (rule (call write clean)).decision ≢ deny
unfolding rule risk_verdict mentions_fields protected_from names_protected lower ◌==◌
    namespace_refusal
passes_as_well = λ h. ground arith

arguments_only_refuse_example :
    rule (call write clean) ≡ rule (record (call write clean) { args = other })
arguments_only_refuse_example =
    arguments_only_refuse (call write clean) (call write clean).args other passes_as_well passes

abbrev held_back : Verdict
held_back = record { decision = needs_human; reason = tainted_run }

answered : decide (call write tainted) ≡ some held_back
unfolding decide rule risk_verdict parses mentions_fields protected_from names_protected lower ◌==◌
    namespace_refusal
answered = refl

abbrev nested : Json
nested = obj (field (text "to") (str (text "./souls/a")) end)

mentions_protected_exactly_example :
    (mentions_protected nested ≡ true) ↔ ((s : Text) × StringIn s nested × (is_protected s ≡ true))
mentions_protected_exactly_example = mentions_protected_exactly nested

-- A read whose namespace argument comes behind another argument.
abbrev browse : GateInput
browse = record (call read tainted) {
  view = record ((call read tainted).view) { namespace_arg = some (text "project") };
  scope = record ((call read tainted).scope) { project_id = some (text "p1") };
  args = field (text "path") (str (text "x")) (field (text "project") (str (text "p1")) end);
}

abbrev let_run : Verdict
let_run = record { decision = allow; reason = allowed }

browse_decided : decide browse ≡ some let_run
unfolding decide rule risk_verdict parses mentions_fields protected_from names_protected lower ◌==◌
    namespace_refusal addresses
browse_decided = refl

allowed_exactly_example : (allow ≡ allow) ↔ RunsAlone browse
allowed_exactly_example = allowed_exactly browse let_run browse_decided
