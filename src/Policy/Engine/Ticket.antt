-- ===== src/Policy/Engine/Ticket.antt =====
-- What a ticket of policy/engine.ts stands for.
use mr_robot.Common.{
  ℕ, String, ◌≡◌, ◌≢◌, sym, ap, ◌∙◌, subst, ◌↔◌, ◌⊎◌, inl, inr, true, false, Option, none, some, [],
  ◌∷◌, ◌++◌, arith, get_elem?, Option-cases,
}
use mr_robot.Common.Text.{Text, eq_iff}
use mr_robot.Events.Canonical.{Js, JsLaws, Fields, obj, canonicalize, canonical_hash}
use mr_robot.Policy.Approvals.{
  Approvals, ApprovalRequest, Input, Outcome, asked, approved, Reaches, create, make_request,
  request,
}
use mr_robot.Common.Map.{string_eq, get, get-set}
use mr_robot.Policy.Approvals.Consent.{HumanApproved, approved_since}
use mr_robot.Policy.Gate.{
  GateInput, Verdict, allow, needs_human, quarantine, irreversible, decide, rule, risk_verdict,
  namespace_refusal,
}
use mr_robot.Policy.Engine.{
  PolicyEngine, GateTicket, minted, waits, ask, Env, hash_args, row, append, ruling, mint,
  request_human, begin, resume, approval_resolved, assert_ticket_matches,
}

begin_mints :
    (js : Js) (preview : Text → Text) (e : PolicyEngine) (input : GateInput) (env : Env)
    (t : GateTicket)
    → (begin js preview e input env).1 ≡ minted t
    → (v : Verdict) × (shown : Text) × (decide input ≡ some v)
      × (canonicalize js (obj input.args) ≡ some shown)
      × ((v.decision ≡ allow) ⊎ (v.decision ≡ quarantine))
      × (t ≡ mint input (js.sha256 shown) v env.ticket_id)
      × ((begin js preview e input env).0 ≡ append e (ruling input v))
unfolding begin request_human
begin_mints js preview e input env t h = elim (Option-cases (decide input)) [
  | inl unread ↦ ground arith
  | inr (v, decided) ↦ elim (Option-cases (canonicalize js (obj input.args))) [
    | inl unwritten ↦ ground arith
    | inr (shown, written) ↦ (v, shown, decided, written, ground arith, ground arith, ground arith)
  ]
]

mint_quarantine :
    (input : GateInput) (hash : Text) (v : Verdict) (id : String)
    → (v.decision ≡ allow) ⊎ (v.decision ≡ quarantine)
    → ((v.decision ≡ allow) × ((mint input hash v id).quarantine ≡ false))
      ⊎ ((v.decision ≡ quarantine) × ((mint input hash v id).quarantine ≡ true))
unfolding mint
mint_quarantine input hash v id h = ground arith

irreversible_waits :
    (input : GateInput) (v : Verdict)
    → decide input ≡ some v
    → (v.decision ≡ allow) ⊎ (v.decision ≡ quarantine)
    → input.view.risk ≢ irreversible
unfolding decide rule risk_verdict
irreversible_waits input v decided h never =
    elim (Option-cases
      (namespace_refusal input.view.namespace_arg input.scope.project_id input.args)) [
        | inl own ↦ ground arith
        | inr (why, refused) ↦ ground arith
      ]

-- When `check` gives a ticket with no human: the gate allowed the call or sent it to quarantine, and the ticket
-- says which; the tool is not irreversible; the ruling is the last row of the log, and no request was made.
pub begin_grants :
    (js : Js) (preview : Text → Text) (e : PolicyEngine) (input : GateInput) (env : Env)
    (t : GateTicket)
    → (begin js preview e input env).1 ≡ minted t
    → (v : Verdict) × (decide input ≡ some v)
      × (((v.decision ≡ allow) × (t.quarantine ≡ false))
          ⊎ ((v.decision ≡ quarantine) × (t.quarantine ≡ true)))
      × (input.view.risk ≢ irreversible)
      × ((begin js preview e input env).0 ≡ record e { log = e.log ++ ruling input v ∷ [] })
unfolding append
begin_grants js preview e input env t h =
    let (v, shown, decided, written, passes, is, logged) = begin_mints js preview e input env t h in
    (
      v,
      decided,
      rw is (mint_quarantine input (js.sha256 shown) v env.ticket_id passes),
      irreversible_waits input v decided passes,
      logged,
    )

matches_exactly :
    (js : Js) (laws : JsLaws js) (input : GateInput) (v : Verdict) (shown : Text) (id : String)
    (tool_ref : Text) (args : Fields)
    → (assert_ticket_matches js (mint input (js.sha256 shown) v id) tool_ref args ≡ none)
      ↔ ((tool_ref ≡ input.tool_ref) × (canonicalize js (obj args) ≡ some shown))
unfolding assert_ticket_matches mint hash_args canonical_hash
matches_exactly js laws input v shown id tool_ref args =
    elim (Option-cases (canonicalize js (obj args))) [
      | inl unwritten ↦ ground (arith, eq_iff input.tool_ref tool_ref)
      | inr (other, written) ↦ ground (
        arith,
        eq_iff input.tool_ref tool_ref,
        eq_iff (js.sha256 shown) (js.sha256 other),
        laws.sha256_collision_free shown other,
      )
    ]

-- Given SHA-256 without collisions, a ticket from `begin` passes `assertTicketMatches` for a tool and
-- arguments exactly when the tool is the one that was checked and the arguments have the same canonical text
-- as those that were checked.
pub ticket_admits_exactly :
    (js : Js) (laws : JsLaws js) (preview : Text → Text) (e : PolicyEngine) (input : GateInput)
    (env : Env) (t : GateTicket) (tool_ref : Text) (args : Fields)
    → (begin js preview e input env).1 ≡ minted t
    → (assert_ticket_matches js t tool_ref args ≡ none) ↔ (
        (tool_ref ≡ input.tool_ref)
        × (canonicalize js (obj args) ≡ canonicalize js (obj input.args)))
ticket_admits_exactly js laws preview e input env t tool_ref args h =
    let (v, shown, decided, written, passes, is, logged) = begin_mints js preview e input env t h in
    rw (is, written) (matches_exactly js laws input v shown env.ticket_id tool_ref args)

-- What `begin` leaves when it waits for a person.
begin_waits :
    (js : Js) (preview : Text → Text) (e : PolicyEngine) (input : GateInput) (env : Env)
    (asked : ApprovalRequest)
    → (begin js preview e input env).1 ≡ waits asked
    → (v : Verdict) × (shown : Text) × (decide input ≡ some v)
      × (v.decision ≡ needs_human)
      × (canonicalize js (obj input.args) ≡ some shown)
      × (asked
          ≡ make_request e.approvals
              (ask input (js.sha256 shown) (preview shown))
              env.approval_id
              env.now)
      × ((begin js preview e input env).0.approvals
          ≡ request e.approvals
              (ask input (js.sha256 shown) (preview shown))
              env.approval_id
              env.now)
unfolding begin request_human append
begin_waits js preview e input env asked h = elim (Option-cases (decide input)) [
  | inl unread ↦ ground arith
  | inr (v, decided) ↦ elim (Option-cases (canonicalize js (obj input.args))) [
    | inl unwritten ↦ ground arith
    | inr (shown, written) ↦ (v, shown, decided, ground arith, written, ground arith, ground arith)
  ]
]

-- Call, request, person and ticket belong together. Let `begin` wait for a request, in approvals that a trace
-- reaches and under an id that no request had, and let `resume` go on with the same input, verdict and hash, at
-- any later state of the log, with an outcome for that id that a promise resolved with, in approvals that a
-- further trace reaches. If it gives a ticket, then the gate had asked for a human; the request was pending
-- when `begin` waited, and names the run, the tool and the hash of the arguments that the ticket names; behind
-- it, in a step of the further trace, a genuine human approved it over the connection that the outcome names;
-- and the last row of the log records it.
pub resume_needs_human :
    (js : Js) (preview : Text → Text) (e : PolicyEngine) (input : GateInput) (env : Env)
    (asks : ApprovalRequest) (v : Verdict) (hash : Text) (wait : Option ℕ) (b : Approvals) (n : ℕ)
    (o : Outcome) (later : PolicyEngine) (t : GateTicket)
    → Reaches (create wait) e.approvals
    → asked env.approval_id e.approvals.requested ≡ false
    → (begin js preview e input env).1 ≡ waits asks
    → decide input ≡ some v
    → hash_args js input.args ≡ some hash
    → (r : Reaches (begin js preview e input env).0.approvals b) → get_elem? b.settled n ≡ some o
    → o.approval_id ≡ asks.approval_id
    → (resume later input v hash o env).1 ≡ minted t
    → (v.decision ≡ needs_human)
      × (get asks.approval_id (begin js preview e input env).0.approvals.pending
          ≡ some (record { request = asks; resolved = false }))
      × (asks.run_id ≡ some t.run_id)
      × (asks.tool_ref ≡ some t.tool_ref)
      × (asks.args_hash ≡ some t.args_hash)
      × HumanApproved asks.approval_id o.by_connection_id r
      × ((resume later input v hash o env).0
          ≡ append later
              (row input (approval_resolved asks.approval_id approved o.by_connection_id)))
unfolding resume mint hash_args canonical_hash ask make_request request
resume_needs_human js preview e input env asks v hash wait b n o later t before new waiting decided
      hashed r at same h =
    let (w, shown, as_decided, human, written, is, kept) =
      begin_waits js preview e input env asks waiting in
    let is_approved : o.decision ≡ approved = ground arith in
    (
      ground arith,
      rw (kept, is)
          (rw
            (get-set env.approval_id env.approval_id
              (record {
                request =
                    make_request e.approvals (ask input (js.sha256 shown) (preview shown))
                      env.approval_id env.now;
                resolved = false;
              })
              e.approvals.pending)
            (ground (arith, string_eq.beq_iff env.approval_id env.approval_id))),
      ground arith,
      ground arith,
      ground arith,
      rw (sym same) (
          by (ask input (js.sha256 shown) (preview shown))
            (begin js preview e input env).0.approvals kept r
            (same ∙ ap (λ (q : ApprovalRequest). q.approval_id) is) is_approved),
      ground arith,
    )
  where
    by :
        (i : Input) (a : Approvals)
        → a ≡ request e.approvals i env.approval_id env.now
        → (r : Reaches a b) → o.approval_id ≡ env.approval_id
        → o.decision ≡ approved
        → HumanApproved o.approval_id o.by_connection_id r
    by i a kept =
        subst
          (λ a.
            (r : Reaches a b)
            → o.approval_id ≡ env.approval_id
            → o.decision ≡ approved
            → HumanApproved o.approval_id o.by_connection_id r)
          (sym kept)
          (λ r same is. approved_since wait i env.approval_id env.now before new r n o at same is)
