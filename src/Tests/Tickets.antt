-- ===== src/Tests/Tickets.antt =====
-- Tickets at concrete calls.
use mr_robot.Common.{get_elem?, ◌≡◌, ◌≢◌, ◌↔◌, ◌⊎◌, refl, true, false, none, some, [], ◌∷◌, ◌++◌}
use mr_robot.Common.Text.{Text, text, ◌==◌}
use mr_robot.Events.Canonical.{obj, end, canonicalize, canonical_hash}
use mr_robot.Common.Map.{string_eq, get, set}
use mr_robot.Policy.Approvals as Approvals
use mr_robot.Policy.Approvals.Consent.{HumanApproved}
use mr_robot.Policy.Gate.{
  GateInput, Verdict, read, irreversible, clean, allow, needs_human, quarantine, always_needs_human,
  decide, rule, parses, mentions_fields, namespace_refusal, risk_verdict,
}
use mr_robot.Policy.Engine.{
  PolicyEngine, GateTicket, Env, minted, waits, ask, request_human, hash_args, begin, resume, mint,
  ruling, row, append, approval_resolved, assert_ticket_matches,
}
use mr_robot.Policy.Engine.Ticket.{begin_grants, ticket_admits_exactly, resume_needs_human}
use mr_robot.Tests.Sample.{js, laws}
use mr_robot.Tests.Rulings.{call}
use mr_robot.Tests.Humans.{yes_c1, new_request}
use mr_robot.Policy.Actor.{human, assert_human}

abbrev preview : Text → Text
preview t = t

abbrev engine : PolicyEngine
engine = record { log = []; approvals = Approvals.create none }

abbrev env : Env
env = record {
  approval_id = "apr_1";
  ticket_id = "t1";
  now = 5;
  takes_ruling = true;
  takes_request = true;
  takes_outcome = true;
}

abbrev bare : GateInput
bare = record (call read clean) { args = end }

abbrev ticket : GateTicket
ticket = record {
  ticket_id = "t1";
  run_id = text "r";
  tool_ref = text "fs/write";
  args_hash = text "{}";
  quarantine = false;
}

ticket_minted : (begin js preview engine bare env).1 ≡ minted ticket
unfolding begin mint append ruling decide rule risk_verdict parses mentions_fields namespace_refusal
    ◌==◌ js canonicalize
ticket_minted = refl

begin_grants_example :
    (v : Verdict) × (decide bare ≡ some v)
    × (((v.decision ≡ allow) × (false ≡ false)) ⊎ ((v.decision ≡ quarantine) × (false ≡ true)))
    × (read ≢ irreversible)
    × ((begin js preview engine bare env).0 ≡ record engine { log = [] ++ ruling bare v ∷ [] })
begin_grants_example = begin_grants js preview engine bare env ticket ticket_minted

ticket_admits_exactly_example : (assert_ticket_matches js ticket (text "fs/write") end ≡ none) ↔ (
    (text "fs/write" ≡ text "fs/write") × (canonicalize js (obj end) ≡ canonicalize js (obj end)))
ticket_admits_exactly_example =
    ticket_admits_exactly js laws preview engine bare env ticket (text "fs/write") end ticket_minted

abbrev merge : GateInput
merge = record (call irreversible clean) { args = end }

abbrev asks : Verdict
asks = record { decision = needs_human; reason = always_needs_human }

abbrev merge_request : Approvals.ApprovalRequest
merge_request =
    Approvals.make_request engine.approvals (ask merge (text "{}") (text "{}")) "apr_1" 5

abbrev waiting : PolicyEngine
waiting = (begin js preview engine merge env).0

abbrev answered : Approvals.Approvals
answered = (Approvals.resolve waiting.approvals "apr_1" (human "c1") Approvals.approves).0

abbrev agreed : Approvals.Reaches waiting.approvals answered
agreed =
    Approvals.Reaches.next Approvals.Reaches.here
      (Approvals.Step.resolves "apr_1" (human "c1") Approvals.approves)

answered_yes : get_elem? answered.settled 0 ≡ some yes_c1
unfolding Approvals.resolve Approvals.request Approvals.finish Approvals.make_request assert_human
    get set Approvals.decision_of begin request_human append ruling decide rule risk_verdict parses
    mentions_fields namespace_refusal ◌==◌ js canonicalize
answered_yes = refl

merge_waits : (begin js preview engine merge env).1 ≡ waits merge_request
unfolding begin request_human append ruling decide rule risk_verdict parses mentions_fields
    namespace_refusal ◌==◌ js canonicalize
merge_waits = refl

merge_decided : decide merge ≡ some asks
unfolding decide rule risk_verdict parses mentions_fields namespace_refusal ◌==◌
merge_decided = refl

merge_hashed : hash_args js merge.args ≡ some (text "{}")
unfolding hash_args canonical_hash js canonicalize
merge_hashed = refl

merge_id : yes_c1.approval_id ≡ merge_request.approval_id
unfolding Approvals.make_request
merge_id = refl

resumed : (resume engine merge asks (text "{}") yes_c1 env).1 ≡ minted ticket
unfolding resume mint
resumed = refl

resume_needs_human_example :
    (needs_human ≡ needs_human)
    × (get merge_request.approval_id (begin js preview engine merge env).0.approvals.pending
        ≡ some (record { request = merge_request; resolved = false }))
    × (merge_request.run_id ≡ some (text "r"))
    × (merge_request.tool_ref ≡ some (text "fs/write"))
    × (merge_request.args_hash ≡ some (text "{}"))
    × HumanApproved merge_request.approval_id (some "c1") agreed
    × ((resume engine merge asks (text "{}") yes_c1 env).0
        ≡ append engine (
            row merge (approval_resolved merge_request.approval_id Approvals.approved (some "c1"))))
resume_needs_human_example =
    resume_needs_human js preview engine merge env merge_request asks (text "{}") none answered 0
      yes_c1 engine ticket Approvals.Reaches.here new_request merge_waits merge_decided merge_hashed
      agreed answered_yes merge_id resumed
