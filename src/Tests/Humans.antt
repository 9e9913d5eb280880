-- ===== src/Tests/Humans.antt =====
-- Quarantine, approvals and tickets at concrete traces.
use mr_robot.Common.{◌+◌, ◌≡◌, refl, true, false, none, some, is_some, get_elem?}
use mr_robot.Common.Map.{string_eq, get, set, has}
use mr_robot.Common.Text.{text}
use mr_robot.Policy.Actor.{human, assert_human}
use mr_robot.Policy.Quarantine as Quarantine
use mr_robot.Policy.Quarantine.Taint.{read_output_taints}
use mr_robot.Policy.Quarantine.Human.{HumanReleased, read_needs_human}
use mr_robot.Policy.Approvals as Approvals
use mr_robot.Policy.Approvals.Exact.{decisions, one_if}
use mr_robot.Policy.Approvals.Once.{requests_settle_once, close_leaves_nothing}
use mr_robot.Policy.Approvals.Consent.{HumanApproved, approval_needs_human}

abbrev page : Quarantine.Hold
page = record {
  hold_id = "hold_1";
  run_id = "run_1";
  tool_ref = "web/get";
  reason = "quarantined";
  held_at = 7;
}

abbrev held : Quarantine.Quarantine
held = (Quarantine.hold Quarantine.empty page "words" true).0

abbrev released : Quarantine.Quarantine
released = (Quarantine.release held "hold_1" (human "c1") false).0

new_hold : get "hold_1" Quarantine.empty.entries ≡ none
unfolding get
new_hold = refl

abbrev trace : Quarantine.Reaches Quarantine.empty released
trace =
    Quarantine.Reaches.next
      (Quarantine.Reaches.next Quarantine.Reaches.here
        (Quarantine.Step.holds page "words" true new_hold))
      (Quarantine.Step.releases "hold_1" (human "c1") false)

words_read : Quarantine.read released "hold_1" ≡ Quarantine.ok "words"
unfolding Quarantine.read Quarantine.release Quarantine.let_go Quarantine.hold get set assert_human
words_read = refl

read_output_taints_example :
    (e : Quarantine.Entry) × (get "hold_1" released.entries ≡ some e)
    × (e.output ≡ "words")
    × (Quarantine.is_tainted released e.hold.run_id ≡ true)
read_output_taints_example = read_output_taints released trace "hold_1" "words" words_read

read_needs_human_example : HumanReleased "hold_1" trace
read_needs_human_example = read_needs_human released trace "hold_1" "words" words_read

abbrev pub input : Approvals.Input
input = record {
  kind = none;
  run_id = some (text "r");
  tool_ref = some (text "pr/merge");
  args_hash = some (text "h");
  agent_id = none;
  risk = text "irreversible";
  args_preview = text "{}";
}

abbrev pub waiting : Approvals.Approvals
waiting = Approvals.request (Approvals.create none) input "apr_1" 5

abbrev pub resolved : Approvals.Approvals
resolved = (Approvals.resolve waiting "apr_1" (human "c1") Approvals.approves).0

pub new_request : Approvals.asked "apr_1" (Approvals.create none).requested ≡ false
unfolding Approvals.asked has
new_request = refl

abbrev pub asking : Approvals.Reaches (Approvals.create none) waiting
asking =
    Approvals.Reaches.next Approvals.Reaches.here
      (Approvals.Step.requests input "apr_1" 5 new_request)

abbrev pub agreed : Approvals.Reaches (Approvals.create none) resolved
agreed =
    Approvals.Reaches.next asking (Approvals.Step.resolves "apr_1" (human "c1") Approvals.approves)

requests_settle_once_example :
    (decisions "apr_1" resolved.settled + one_if (is_some (get "apr_1" resolved.pending))
      ≡ one_if (Approvals.asked "apr_1" resolved.requested))
    × (has "apr_1" resolved.armed ≡ is_some (get "apr_1" resolved.pending))
requests_settle_once_example = requests_settle_once none resolved agreed "apr_1"

close_leaves_nothing_example :
    (get "apr_1" (Approvals.close waiting).pending ≡ none)
    × (has "apr_1" (Approvals.close waiting).armed ≡ false)
    × (decisions "apr_1" (Approvals.close waiting).settled
        ≡ one_if (Approvals.asked "apr_1" (Approvals.close waiting).requested))
close_leaves_nothing_example = close_leaves_nothing none waiting asking "apr_1"

abbrev pub yes_c1 : Approvals.Outcome
yes_c1 = record {
  approval_id = "apr_1";
  decision = Approvals.approved;
  by_connection_id = some "c1";
}

pub settled_yes : get_elem? resolved.settled 0 ≡ some yes_c1
unfolding Approvals.resolve Approvals.request Approvals.finish Approvals.make_request assert_human
    get set Approvals.decision_of
settled_yes = refl

approval_needs_human_example : HumanApproved "apr_1" (some "c1") agreed
approval_needs_human_example = approval_needs_human none resolved agreed 0 yes_c1 settled_yes refl
