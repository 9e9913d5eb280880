-- ===== src/Policy/Approvals.antt =====
-- policy/approvals.ts: requests that wait for a person, in approvals without `onRequested` and `onResolved`,
-- as kernel.ts makes them. A promise and a timer are their effects: the outcomes that were settled, in
-- order, and the ids whose timer is armed.
pub mod Rebuild
pub mod Exact
pub mod Once
pub mod Consent
use mr_robot.Common.{
  ℕ, ◌+◌, ◌≡◌, String, Bool, true, false, not, ◌||◌, Option, none, some, List, [], ◌∷◌, ◌++◌, map,
  filter, if◌then◌else◌,
}
use mr_robot.Common.Map.{Map, string_eq, get, set, delete, values, has}
use mr_robot.Common.Text.{Text}
use mr_robot.Policy.Actor.{Actor, assert_human}

pub data Decision : Type 0 where
  approved denied expired : Decision

pub data Kind : Type 0 where
  tool promotion : Kind

pub record ApprovalRequest : Type 0 where
  pub approval_id : String
  pub kind : Kind
  pub run_id : Option Text
  pub tool_ref : Option Text
  pub args_hash : Option Text
  pub agent_id : Option Text
  pub risk : Text
  pub args_preview : Text
  pub requested_at : ℕ
  pub expires_at : ℕ

pub record Outcome : Type 0 where
  pub approval_id : String
  pub decision : Decision
  pub by_connection_id : Option String

pub record Pending : Type 0 where
  pub request : ApprovalRequest
  pub resolved : Bool

pub record Approvals : Type 0 where
  pub pending : Map String Pending
  pub wait_ms : ℕ
  pub armed : List String
  -- The calls of `request`.
  pub requested : List ApprovalRequest
  -- The promises that resolved.
  pub settled : List Outcome

-- The constructor without callbacks; `waitMs` is 300,000 if the options do not give it.
abbrev pub create : Option ℕ → Approvals
create wait = record {
  pending = [];
  wait_ms = elim wait [ none ↦ 300000 | some ms ↦ ms ];
  armed = [];
  requested = [];
  settled = [];
}

pub record Input : Type 0 where
  pub kind : Option Kind
  pub run_id : Option Text
  pub tool_ref : Option Text
  pub args_hash : Option Text
  pub agent_id : Option Text
  pub risk : Text
  pub args_preview : Text

-- The request that `request` builds, under the id that randomUUID gave, at the time of `Date.now`.
unfoldable pub make_request : Approvals → Input → String → ℕ → ApprovalRequest
make_request a i id now = record {
  approval_id = id;
  kind = elim i.kind [ none ↦ tool | some k ↦ k ];
  run_id = i.run_id;
  tool_ref = i.tool_ref;
  args_hash = i.args_hash;
  agent_id = i.agent_id;
  risk = i.risk;
  args_preview = i.args_preview;
  requested_at = now;
  expires_at = now + a.wait_ms;
}

unfoldable pub request : Approvals → Input → String → ℕ → Approvals
request a i id now = record a {
  armed = id ∷ a.armed;
  pending = set id (record { request = make_request a i id now; resolved = false }) a.pending;
  requested = a.requested ++ make_request a i id now ∷ [];
}

-- `clearTimeout`
unfoldable pub disarm : String → List String → List String
disarm id armed = filter (λ t. not (string_eq.beq t id)) armed

-- `#finish`, where no `onResolved` is called; it returns the outcome that it is given.
unfoldable pub finish : Approvals → String → Outcome → Approvals
finish a id outcome = elim (get id a.pending) [
  | none ↦ a
  | some p ↦ if p.resolved then a else record a {
    armed = disarm id a.armed;
    pending = delete id a.pending;
    settled = a.settled ++ outcome ∷ [];
  }
]

pub data Failure : Type 0 where
  not_human not_pending : Failure

pub data Result {ℓ} (A : Type ℓ) : Type ℓ where
  ok : A → Result A
  threw : Failure → Result A

-- The decisions that a person may give.
pub data Answer : Type 0 where
  approves denies : Answer

unfoldable pub decision_of : Answer → Decision
decision_of approves = approved
decision_of denies = denied

unfoldable pub resolve : Approvals → String → Actor → Answer → Approvals × Result Outcome
resolve a id actor answer = elim (assert_human actor) [
  | none ↦ (a, threw not_human)
  | some connection ↦ elim (get id a.pending) [
    | none ↦ (a, threw not_pending)
    | some p ↦
        let outcome : Outcome = record {
          approval_id = id;
          decision = decision_of answer;
          by_connection_id = some connection;
        } in
        (finish a id outcome, ok outcome)
  ]
]

unfoldable pub pending : Approvals → List ApprovalRequest
pending a = map (λ (p : Pending). p.request) (values a.pending)

-- What the timer of a request runs.
unfoldable pub expire : Approvals → String → Approvals
expire a id = finish a id (record { approval_id = id; decision = expired; by_connection_id = none })

unfoldable pub expire_all : List String → Approvals → Approvals
expire_all [] a = a
expire_all (id ∷ ids) a = expire_all ids (expire a id)

unfoldable pub close : Approvals → Approvals
close a = expire_all (map (λ (e : String × Pending). e.0) a.pending) a

-- The ids of the requests that were made.
unfoldable pub asked : String → List ApprovalRequest → Bool
asked id requests = has id (map (λ (r : ApprovalRequest). r.approval_id) requests)

-- The callers of the approvals in any order: an id comes from randomUUID, so a request has one that no
-- request had before, and a timer runs while it is armed.
pub data Step (a : Approvals) : Approvals → Type 0 where
  requests :
      (i : Input) (id : String) (now : ℕ)
      → asked id a.requested ≡ false
      → Step a (request a i id now)
  resolves : (id : String) (actor : Actor) (answer : Answer) → Step a (resolve a id actor answer).0
  fires : (id : String) → has id a.armed ≡ true → Step a (expire a id)
  closes : Step a (close a)

pub data Reaches (a : Approvals) : Approvals → Type 0 where
  here : Reaches a a
  next : {b c : Approvals} → Reaches a b → Step b c → Reaches a c
