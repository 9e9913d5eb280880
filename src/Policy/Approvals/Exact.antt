-- ===== src/Policy/Approvals/Exact.antt =====
-- policy/approvals.ts: what every trace keeps of requests, timers and decisions.
use mr_robot.Common.{
  ℕ, ◌+◌, String, ◌≡◌, refl, ◌⊎◌, inl, inr, Bool, true, false, not, ◌&&◌, ◌||◌, Option, none, some,
  is_some, List, [], ◌∷◌, ◌++◌, filter, arith, Option-cases, if◌then◌else◌,
}
use mr_robot.Common.Map.{string_eq, get, delete, get-set, get-delete, has}
use mr_robot.Policy.Actor.{Actor, human, forged, assert_human}
use mr_robot.Policy.Approvals.{
  Input, expired, Outcome, Pending, ApprovalRequest, Approvals, create, request, make_request,
  disarm, finish, resolve, decision_of, expire, expire_all, close, asked, requests, resolves, fires,
  closes, Reaches, here, next,
}

-- How many promises the outcomes of a request resolved.
unfoldable pub decisions : String → List Outcome → ℕ
decisions id [] = 0
decisions id (o ∷ os) = (if string_eq.beq o.approval_id id then 1 else 0) + decisions id os

unfoldable pub one_if : Bool → ℕ
one_if true = 1
one_if false = 0

-- A request is pending or it has come to one decision, and its timer runs exactly as long as it is pending.
pub record IsExact (a : Approvals) : Type 0 where
  pub unresolved : (id : String) (p : Pending) → get id a.pending ≡ some p → p.resolved ≡ false
  pub once :
      (id : String)
      → decisions id a.settled + one_if (is_some (get id a.pending)) ≡ one_if (asked id a.requested)
  pub timed : (id : String) → has id a.armed ≡ is_some (get id a.pending)

decisions-append :
    (id : String) (os : List Outcome) (o : Outcome)
    → decisions id (os ++ o ∷ [])
      ≡ decisions id os + (if string_eq.beq o.approval_id id then 1 else 0)
unfolding decisions
decisions-append id [] o = ground arith
decisions-append id (x ∷ os) o = ground (arith, decisions-append id os o)

asked-append :
    (id : String) (rs : List ApprovalRequest) (r : ApprovalRequest)
    → asked id (rs ++ r ∷ []) ≡ (asked id rs || string_eq.beq r.approval_id id)
unfolding asked has
asked-append id [] r = ground arith
asked-append id (x ∷ rs) r = ground (arith, asked-append id rs r)

has-disarm :
    (id t : String) (armed : List String)
    → has t (disarm id armed) ≡ (has t armed && not (string_eq.beq id t))
unfolding has disarm filter
has-disarm id t [] = ground arith
has-disarm id t (x ∷ armed) = ground (
  arith,
  has-disarm id t armed,
  string_eq.beq_iff x id,
  string_eq.beq_iff x t,
  string_eq.beq_iff id t,
)

pub finish-cases :
    (a : Approvals) (id : String) (o : Outcome)
    → IsExact a
    → ((finish a id o ≡ a) × (get id a.pending ≡ none))
      ⊎ ((is_some (get id a.pending) ≡ true)
          × (finish a id o ≡ record a {
            armed = disarm id a.armed;
            pending = delete id a.pending;
            settled = a.settled ++ o ∷ [];
          }))
unfolding finish
finish-cases a id o x = elim (Option-cases (get id a.pending)) [
  | inl missing ↦ inl (ground arith)
  | inr (p, found) ↦ inr (ground (arith, x.unresolved id p found))
]

request-IsExact :
    (a : Approvals) (i : Input) (id : String) (now : ℕ)
    → asked id a.requested ≡ false
    → IsExact a
    → IsExact (request a i id now)
unfolding request make_request one_if has
request-IsExact a i id now new x = record {
  unresolved = λ t p g. ground (
    arith,
    get-set id t (record { request = make_request a i id now; resolved = false }) a.pending,
    x.unresolved t p,
  );
  once = λ t. ground (
    arith,
    get-set id t (record { request = make_request a i id now; resolved = false }) a.pending,
    x.once t,
    asked-append t a.requested (make_request a i id now),
    string_eq.beq_iff id t,
  );
  timed = λ t. ground (
    arith,
    get-set id t (record { request = make_request a i id now; resolved = false }) a.pending,
    x.timed t,
  );
}

settled-IsExact :
    (a : Approvals) (id : String) (o : Outcome)
    → o.approval_id ≡ id
    → is_some (get id a.pending) ≡ true
    → IsExact a
    → IsExact (record a {
      armed = disarm id a.armed;
      pending = delete id a.pending;
      settled = a.settled ++ o ∷ [];
    })
unfolding one_if
settled-IsExact a id o same there x = record {
  unresolved = λ t p g. ground (arith, get-delete id t a.pending, x.unresolved t p);
  once = λ t. ground (
    arith,
    get-delete id t a.pending,
    x.once t,
    decisions-append t a.settled o,
    string_eq.beq_iff id t,
  );
  timed = λ t. ground (arith, get-delete id t a.pending, x.timed t, has-disarm id t a.armed);
}

finish-IsExact :
    (a : Approvals) (id : String) (o : Outcome)
    → o.approval_id ≡ id
    → IsExact a
    → IsExact (finish a id o)
finish-IsExact a id o same x = elim (finish-cases a id o x) [
  | inl (stays, missing) ↦ rw stays x
  | inr (there, is) ↦ rw is (settled-IsExact a id o same there x)
]

create-IsExact : (wait : Option ℕ) → IsExact (create wait)
unfolding get decisions one_if asked has
create-IsExact wait = record {
  unresolved = λ id p g. ground arith;
  once = λ id. refl;
  timed = λ id. refl;
}

resolve-IsExact :
    (a : Approvals) (id : String) (actor : Actor) (answer : _)
    → IsExact a
    → IsExact (resolve a id actor answer).0
unfolding resolve assert_human
resolve-IsExact a id forged answer x = x
resolve-IsExact a id (human c) answer x = elim (Option-cases (get id a.pending)) [
  | inl missing ↦ rw (missing, resolve) x
  | inr (p, found) ↦
      rw (found, resolve)
        (finish-IsExact a id
          (record { approval_id = id; decision = decision_of answer; by_connection_id = some c })
          refl x)
]

pub expire-IsExact : (a : Approvals) (id : String) → IsExact a → IsExact (expire a id)
unfolding expire
expire-IsExact a id x =
    finish-IsExact a id (record { approval_id = id; decision = expired; by_connection_id = none })
      refl x

expire_all-IsExact : (ids : List String) (a : Approvals) → IsExact a → IsExact (expire_all ids a)
unfolding expire_all
expire_all-IsExact [] a x = x
expire_all-IsExact (id ∷ ids) a x = expire_all-IsExact ids (expire a id) (expire-IsExact a id x)

pub reached-IsExact : (wait : Option ℕ) {a : Approvals} → Reaches (create wait) a → IsExact a
unfolding close
reached-IsExact wait here = create-IsExact wait
reached-IsExact wait (next r (requests i id now new)) =
    request-IsExact _ i id now new (reached-IsExact wait r)
reached-IsExact wait (next r (resolves id actor answer)) =
    resolve-IsExact _ id actor answer (reached-IsExact wait r)
reached-IsExact wait (next r (fires id armed)) = expire-IsExact _ id (reached-IsExact wait r)
reached-IsExact wait (next r closes) = expire_all-IsExact _ _ (reached-IsExact wait r)
