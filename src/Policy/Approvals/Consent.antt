-- ===== src/Policy/Approvals/Consent.antt =====
-- Approval is a person's: the traces of policy/approvals.ts.
use mr_robot.Common.{
  ℕ, String, ◌≡◌, refl, false, ◌⊎◌, inl, inr, Option, none, some, List, [], ◌∷◌, ◌++◌, arith, All,
  All-append, get_elem?, some-injective, zero, suc, subst, Option-cases,
}
use mr_robot.Common.Map.{string_eq, get}
use mr_robot.Policy.Actor.{Actor, human, forged, assert_human}
use mr_robot.Policy.Approvals.{
  approved, expired, Answer, approves, denies, Outcome, Approvals, Input, asked, create, request,
  finish, resolve, decision_of, expire, expire_all, close, requests, resolves, fires, closes,
  Reaches, here, next,
}
use mr_robot.Policy.Approvals.Exact.{decisions, one_if, reached-IsExact}

-- A step of the trace is a human's approval of this request, over this connection.
unfoldable pub HumanApproved : {a b : Approvals} → String → Option String → Reaches a b → Type 0
HumanApproved id connection here = ⊥
HumanApproved id connection (next r (resolves i actor answer)) =
    HumanApproved id connection r
    ⊎ ((i ≡ id) × (c : String) × (actor ≡ human c) × (connection ≡ some c) × (answer ≡ approves))
HumanApproved id connection (next r (requests i j now new)) = HumanApproved id connection r
HumanApproved id connection (next r (fires i armed)) = HumanApproved id connection r
HumanApproved id connection (next r closes) = HumanApproved id connection r

-- What a call settles is this outcome, or nothing.
finish-settled :
    (a : Approvals) (id : String) (o : Outcome)
    → ((finish a id o).settled ≡ a.settled) ⊎ ((finish a id o).settled ≡ a.settled ++ o ∷ [])
unfolding finish
finish-settled a id o = elim (Option-cases (get id a.pending)) [
  | inl missing ↦ inl (ground arith)
  | inr (p, found) ↦ ground arith
]

finish-All :
    (P : Outcome → Type 0) (a : Approvals) (id : String) (o : Outcome)
    → P o
    → All P a.settled
    → All P (finish a id o).settled
finish-All P a id o po h = elim (finish-settled a id o) [
  | inl same ↦ rw same h
  | inr longer ↦ rw longer (All-append P a.settled (o ∷ []) h (po, tt))
]

expire_all-All :
    (P : Outcome → Type 0) (ids : List String) (a : Approvals)
    → ((o : Outcome) → o.decision ≡ expired → P o)
    → All P a.settled
    → All P (expire_all ids a).settled
unfolding expire_all expire
expire_all-All P [] a late h = h
expire_all-All P (id ∷ ids) a late h =
    let o : Outcome = record { approval_id = id; decision = expired; by_connection_id = none } in
    expire_all-All P ids (expire a id) late (finish-All P a id o (late o refl) h)

All-map :
    (P Q : Outcome → Type 0) (os : List Outcome) → ((o : Outcome) → P o → Q o) → All P os → All Q os
All-map P Q [] f h = h
All-map P Q (o ∷ os) f h = (f o h.0, All-map P Q os f h.1)

All-get :
    (P : Outcome → Type 0) (os : List Outcome) (n : ℕ) (o : Outcome)
    → All P os
    → get_elem? os n ≡ some o
    → P o
All-get P [] n o h at = ground arith
All-get P (x ∷ os) zero o h at = subst P (some-injective x o at) h.0
All-get P (x ∷ os) (suc n) o h at = All-get P os n o h.1 at

-- If the outcome is an approval, the trace has the step.
abbrev Consented : {a b : Approvals} → Reaches a b → Outcome → Type 0
Consented r o = o.decision ≡ approved → HumanApproved o.approval_id o.by_connection_id r

resolve-All :
    (P : Outcome → Type 0) (a : Approvals) (id : String) (actor : Actor) (answer : Answer)
    → ((c : String)
        → actor ≡ human c
        → P (record { approval_id = id; decision = decision_of answer; by_connection_id = some c }))
    → All P a.settled
    → All P (resolve a id actor answer).0.settled
unfolding resolve assert_human
resolve-All P a id forged answer given h = h
resolve-All P a id (human c) answer given h = elim (Option-cases (get id a.pending)) [
  | inl missing ↦ rw (missing, resolve) h
  | inr (p, found) ↦ rw (found, resolve) (finish-All P a id _ (given c refl) h)
]

answered :
    {a b : Approvals} (r : Reaches a b) (id : String) (actor : Actor) (answer : Answer) (c : String)
    → actor ≡ human c
    → Consented
        (next r (resolves id actor answer))
        (record { approval_id = id; decision = decision_of answer; by_connection_id = some c })
unfolding HumanApproved decision_of
answered r id actor approves c is yea = inr (refl, c, is, refl, refl)
answered r id actor denies c is yea = ground arith

-- Outcomes that satisfy `P` and were not there at the start have come from consent.
pub consents :
    (P : Outcome → Type 0) {a b : Approvals} (r : Reaches a b)
    → All (λ o. P o → ⊥) a.settled
    → All (λ o. P o → Consented r o) b.settled
unfolding HumanApproved request close expire
consents P {a = a} here new =
    All-map (λ o. P o → ⊥) (λ o. P o → Consented {a = a} here o) a.settled (λ o no p. absurd (no p))
      new
consents P (next r (requests i id now asked)) new = consents P r new
consents P (next r (resolves id actor answer)) new =
    resolve-All (λ o. P o → Consented (next r (resolves id actor answer)) o) _ id actor answer
      (λ c is p. answered r id actor answer c is)
      (All-map (λ o. P o → Consented r o)
        (λ o. P o → Consented (next r (resolves id actor answer)) o) _ (λ o f p y. inl (f p y))
        (consents P r new))
consents P (next r (fires id armed)) new =
    finish-All (λ o. P o → Consented r o) _ id _ (λ p y. ground arith) (consents P r new)
consents P (next r closes) new =
    expire_all-All (λ o. P o → Consented r o) _ _ (λ o late p y. ground arith) (consents P r new)

none_decided :
    (id : String) (os : List Outcome)
    → decisions id os ≡ 0
    → All (λ (o : Outcome). o.approval_id ≡ id → ⊥) os
unfolding decisions
none_decided id [] e = tt
none_decided id (o ∷ os) e = (
  λ same. ground (arith, e, (string_eq.beq_iff o.approval_id id).1 same),
  none_decided id os (ground (arith, e)),
)

-- Behind a request under a new id, an approval of that id comes from a human's step behind the request.
pub approved_since :
    (wait : Option ℕ) {a b : Approvals} (i : Input) (id : String) (now : ℕ)
    → Reaches (create wait) a
    → asked id a.requested ≡ false
    → (r : Reaches (request a i id now) b) (n : ℕ) (o : Outcome) → get_elem? b.settled n ≡ some o
    → o.approval_id ≡ id
    → o.decision ≡ approved
    → HumanApproved o.approval_id o.by_connection_id r
unfolding request one_if
approved_since wait {a = a} {b = b} i id now before new r n o at same is =
    All-get (λ o. o.approval_id ≡ id → Consented r o) b.settled n o
      (consents (λ o. o.approval_id ≡ id) r
        (none_decided id a.settled (ground (arith, new, (reached-IsExact wait before).once id))))
      at same is

-- In every trace of requests, answers, timers and closes: an outcome that a promise resolved with and
-- that says approved comes from a step of that trace in which a genuine human, over the connection that the
-- outcome names, approved that very request. Timeouts, closing and forged actors never approve.
pub approval_needs_human :
    (wait : Option ℕ) (b : Approvals) (r : Reaches (create wait) b) (n : ℕ) (o : Outcome)
    → get_elem? b.settled n ≡ some o
    → o.decision ≡ approved
    → HumanApproved o.approval_id o.by_connection_id r
approval_needs_human wait b r n o at is =
    All-get (λ o. Unit → Consented r o) b.settled n o (consents (λ o. Unit) r tt) at tt is
