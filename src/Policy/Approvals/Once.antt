-- ===== src/Policy/Approvals/Once.antt =====
-- policy/approvals.ts: every request comes to one decision.
use mr_robot.Common.{
  ℕ, ◌+◌, String, ◌≡◌, refl, ◌⊎◌, inl, inr, true, false, Option, none, is_some, List, [], ◌∷◌, map,
  arith, if◌then◌else◌,
}
use mr_robot.Common.Map.{Map, string_eq, get, get-delete, has}
use mr_robot.Policy.Approvals.{
  expired, Pending, Approvals, create, expire, expire_all, close, asked, closes, Reaches, next,
}
use mr_robot.Policy.Approvals.Exact.{
  decisions, one_if, IsExact, finish-cases, expire-IsExact, reached-IsExact,
}

expire-pending :
    (a : Approvals) (id t : String)
    → IsExact a
    → get t (expire a id).pending ≡ (if string_eq.beq id t then none else get t a.pending)
unfolding expire
expire-pending a id t x =
    elim (finish-cases a id
      (record { approval_id = id; decision = expired; by_connection_id = none }) x) [
        | inl (stays, missing) ↦ ground (arith, string_eq.beq_iff id t)
        | inr (there, is) ↦ rw is (get-delete id t a.pending)
      ]

expire_all-pending :
    (ids : List String) (a : Approvals) (t : String)
    → IsExact a
    → get t (expire_all ids a).pending ≡ (if has t ids then none else get t a.pending)
unfolding expire_all has
expire_all-pending [] a t x = refl
expire_all-pending (id ∷ ids) a t x =
    ground (
      arith,
      expire_all-pending ids (expire a id) t (expire-IsExact a id x),
      expire-pending a id t x,
    )

get-keys :
    (t : String) (m : Map String Pending)
    → get t m ≡ none ⊎ (has t (map (λ (e : String × Pending). e.0) m) ≡ true)
unfolding get has
get-keys t [] = inl refl
get-keys t ((k, p) ∷ m) = ground (arith, get-keys t m)

-- Along every trace of requests, answers, timers and closes, under any waiting time, in approvals without
-- callbacks: a request that was never made has no decision and is not pending; a request that was made is
-- either pending, undecided and with its timer armed, or has exactly one decision and no timer.
pub requests_settle_once :
    (wait : Option ℕ) (a : Approvals) (r : Reaches (create wait) a) (id : String)
    → (decisions id a.settled + one_if (is_some (get id a.pending)) ≡ one_if (asked id a.requested))
      × (has id a.armed ≡ is_some (get id a.pending))
requests_settle_once wait a r id =
    ((reached-IsExact wait r).once id, (reached-IsExact wait r).timed id)

-- After `close`, on any approvals that a trace reaches: nothing is pending, no timer runs, and every
-- request that was ever made has exactly one decision.
pub close_leaves_nothing :
    (wait : Option ℕ) (a : Approvals) (r : Reaches (create wait) a) (id : String)
    → (get id (close a).pending ≡ none)
      × (has id (close a).armed ≡ false)
      × (decisions id (close a).settled ≡ one_if (asked id (close a).requested))
unfolding close one_if
close_leaves_nothing wait a r id =
    let x = reached-IsExact wait (next r closes) in
    let gone : get id (close a).pending ≡ none = ground (
      arith,
      expire_all-pending (map (λ (e : String × Pending). e.0) a.pending) a id
          (reached-IsExact wait r),
      get-keys id a.pending,
    ) in
    (gone, ground (arith, gone, x.timed id), ground (arith, gone, x.once id))
