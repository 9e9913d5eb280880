-- ===== src/Policy/Engine.antt =====
-- policy/engine.ts: gate, approval, ticket, log. `check` awaits the approval, so it is two functions:
-- `begin` up to the await and `resume` from it. Whether the store takes a row is an argument of each
-- append; `preview` is the text of `boundOutput`.
pub mod Ticket
use mr_robot.Common.{
  ℕ, String, Bool, true, false, not, Option, none, some, List, [], ◌∷◌, ◌++◌, if◌then◌else◌,
}
use mr_robot.Common.Text.{Text, text, ◌==◌}
use mr_robot.Events.Canonical.{Js, Fields, obj, canonicalize, canonical_hash}
use mr_robot.Policy.Approvals.{
  Approvals, ApprovalRequest, Outcome, approved, denied, expired, make_request, request,
}
use mr_robot.Policy.Gate.{
  GateInput, Verdict, Risk, Taint, allow, needs_human, quarantine, deny, read, write, irreversible,
  decide,
}
use mr_robot.Policy.Gate
use mr_robot.Policy.Approvals as Requests

pub record GateTicket : Type 0 where
  pub ticket_id : String
  pub run_id : Text
  pub tool_ref : Text
  pub args_hash : Text
  pub quarantine : Bool

-- The payloads of the rows; each row carries the run and the agent of the scope.
pub data Payload : Type 0 where
  tool_gate :
      (tool_ref : Text) (decision : Gate.Decision) (reason : Gate.Reason) (risk : Risk)
      (taint : Taint)
      → Payload
  approval_requested :
      (approval_id : String) (tool_ref args_preview : Text) (risk : Risk) (expires_at : ℕ) → Payload
  approval_resolved :
      (approval_id : String) (decision : Requests.Decision) (by_connection_id : Option String)
      → Payload

pub record LogRow : Type 0 where
  pub run_id : Text
  pub agent_id : Text
  pub payload : Payload

pub record PolicyEngine : Type 0 where
  pub log : List LogRow
  pub approvals : Approvals

pub data Failure : Type 0 where
  bad_input not_canonical log_refused approval_expired human_denied : Failure
  policy_denied : Gate.Reason → Failure
  other_tool other_args : Failure

-- `hashArgs`; `none` is a thrown TypeError.
unfoldable pub hash_args : Js → Fields → Option Text
hash_args js args = canonical_hash js (obj args)

unfoldable pub risk_text : Risk → Text
risk_text read = text "read"
risk_text write = text "write"
risk_text irreversible = text "irreversible"

unfoldable pub row : GateInput → Payload → LogRow
row input payload = record {
  run_id = input.scope.run_id;
  agent_id = input.scope.agent_id;
  payload = payload;
}

unfoldable pub append : PolicyEngine → LogRow → PolicyEngine
append e r = record e { log = e.log ++ r ∷ [] }

unfoldable pub ruling : GateInput → Verdict → LogRow
ruling input v =
    row input (tool_gate input.tool_ref v.decision v.reason input.view.risk input.scope.taint)

unfoldable pub ask : GateInput → Text → Text → Requests.Input
ask input hash preview = record {
  kind = none;
  run_id = some input.scope.run_id;
  tool_ref = some input.tool_ref;
  args_hash = some hash;
  agent_id = none;
  risk = risk_text input.view.risk;
  args_preview = preview;
}

unfoldable pub mint : GateInput → Text → Verdict → String → GateTicket
mint input hash v ticket_id = record {
  ticket_id = ticket_id;
  run_id = input.scope.run_id;
  tool_ref = input.tool_ref;
  args_hash = hash;
  quarantine = elim v.decision [
    | quarantine ↦ true
    | allow ↦ false
    | needs_human ↦ false
    | deny ↦ false
  ];
}

-- What the caller holds when `begin` is over: a failure, a ticket, or a request whose outcome it awaits.
pub data Phase : Type 0 where
  threw : Failure → Phase
  minted : GateTicket → Phase
  waits : ApprovalRequest → Phase

-- What the surroundings give to one call: the ids of randomUUID, the clock, and for each of the rows
-- whether the store takes it.
pub record Env : Type 0 where
  pub approval_id : String
  pub ticket_id : String
  pub now : ℕ
  pub takes_ruling : Bool
  pub takes_request : Bool
  pub takes_outcome : Bool

unfoldable pub request_human : PolicyEngine → GateInput → Text → Text → Env → PolicyEngine × Phase
request_human e input hash preview env =
    let r = make_request e.approvals (ask input hash preview) env.approval_id env.now in
    let e1 = record e {
      approvals = request e.approvals (ask input hash preview) env.approval_id env.now;
    } in
    if env.takes_request
    then (
      append e1 (
          row input (
            approval_requested r.approval_id
              (elim r.tool_ref [ none ↦ input.tool_ref | some t ↦ t ]) r.args_preview
              input.view.risk r.expires_at)),
      waits r,
    )
    else (e1, threw log_refused)

unfoldable pub begin : Js → (Text → Text) → PolicyEngine → GateInput → Env → PolicyEngine × Phase
begin js preview e input env = elim (decide input) [
  | none ↦ (e, threw bad_input)
  | some v ↦ elim (canonicalize js (obj input.args)) [
    | none ↦ (e, threw not_canonical)
    | some shown ↦ if not env.takes_ruling then (e, threw log_refused) else elim v.decision [
      | deny ↦ (append e (ruling input v), threw (policy_denied v.reason))
      | needs_human ↦
          request_human (append e (ruling input v)) input (js.sha256 shown) (preview shown) env
      | allow ↦ (append e (ruling input v), minted (mint input (js.sha256 shown) v env.ticket_id))
      | quarantine ↦
          (append e (ruling input v), minted (mint input (js.sha256 shown) v env.ticket_id))
    ]
  ]
]

-- From the await on: the outcome is what the promise of the request resolved with. The verdict and the
-- hash are those that `begin` computed.
unfoldable pub resume :
    PolicyEngine → GateInput → Verdict → Text → Outcome → Env → PolicyEngine × Phase
resume e input v hash settled env = if not env.takes_outcome then (e, threw log_refused) else (
  append e
      (row input (approval_resolved settled.approval_id settled.decision settled.by_connection_id)),
  elim settled.decision [
    | approved ↦ minted (mint input hash v env.ticket_id)
    | denied ↦ threw human_denied
    | expired ↦ threw approval_expired
  ],
)

-- `assertTicketMatches`; `none` is a normal return.
unfoldable pub assert_ticket_matches : Js → GateTicket → Text → Fields → Option Failure
assert_ticket_matches js ticket tool_ref args =
    if not (ticket.tool_ref == tool_ref) then some other_tool else elim (hash_args js args) [
      | none ↦ some not_canonical
      | some hash ↦ if not (ticket.args_hash == hash) then some other_args else none
    ]
