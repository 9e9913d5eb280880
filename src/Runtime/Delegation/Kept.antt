-- ===== src/Runtime/Delegation/Kept.antt =====
-- Adopting a plan, settling a child and forgetting a run, in runtime/delegate.ts, keep a state ordered.
use mr_robot.Common.{
  ℕ, ◌≤◌, ◌≡◌, refl, sym, subst, inl, inr, true, not, Option, none, some, is_some, List, [], ◌∷◌,
  ◌++◌, length, arith, if◌then◌else◌, if_both, Bool-cases,
}
use mr_robot.Common.Text.{Text, ◌==◌}
use mr_robot.Common.Map.{text_eq, get, has, get-delete}
use mr_robot.Goals.Plan.{ProposedPlan}
use mr_robot.Goals.Plan.Coherent.{
  Verdict, unfinished, coherent, refused, tasks_in, assert_plan_coherent,
}
use mr_robot.Runtime.Budget.{Budget}
use mr_robot.Runtime.Delegation.{
  AgentRecord, Caller, ChildRecord, RunState, Reason, Delegation, Answer, RawPlan, not_object,
  malformed, proposed, Written, failed, written, state_of, put_state, open_state, DelegationEvent,
  result, forget, remove, refuse, delegable, adopt_plan, adopt_opened, adopt_raw, adopt_checked,
  adopt_written, write_failed, task_map, plan_undecided, plan_incoherent, plan_not_object,
  plan_malformed, already_adopted, no_namespace,
}
use mr_robot.Runtime.Delegation.Handoff.{RunOutcome, settle, set_status}
use mr_robot.Runtime.Delegation.Ordered.{
  AllFollow, IsOrdered, state-open, child_runs-open, put-IsOrdered, settle-AllFollow,
  length-set_status,
}

state-forget :
    (x y : Text) (d : Delegation)
    → state_of x (forget y d)
      ≡ (if y == x then record { adopted = none; children = [] } else state_of x d)
unfolding state_of forget
state-forget x y d = ground (arith, get-delete y x d.runs)

has-remove : (x y : Text) (l : List Text) → has x (remove y l) ≡ true → has x l ≡ true
unfolding has remove
has-remove x y [] at = at
has-remove x y (z ∷ l) at = ground (arith, at, has-remove x y l)

module _ (limit : Text → ℕ) where
  same-IsOrdered :
      (d e : Delegation)
      → ((x : Text) → state_of x e ≡ state_of x d)
      → e.child_runs ≡ d.child_runs
      → IsOrdered limit d
      → IsOrdered limit e
  same-IsOrdered d e states runs h = record {
    follow = λ x. subst AllFollow (sym (states x)) (h.follow x);
    leaf = λ x at.
        subst (λ (r : RunState). r.children ≡ []) (sym (states x))
          (h.leaf x (subst (λ l. has x l ≡ true) runs at));
    few = λ x. subst (λ (r : RunState). length r.children ≤ limit x) (sym (states x)) (h.few x);
  }

  pub refuse-IsOrdered :
      (run_id : Text) (r : Reason) (t : Option Text) (d : Delegation)
      → IsOrdered limit d
      → IsOrdered limit (refuse run_id r t d).0
  unfolding refuse state_of
  refuse-IsOrdered run_id r t d h = same-IsOrdered d (refuse run_id r t d).0 (λ x. refl) refl h

  pub open-IsOrdered :
      (y : Text) (d : Delegation) → IsOrdered limit d → IsOrdered limit (open_state y d)
  open-IsOrdered y d h =
      same-IsOrdered d (open_state y d) (λ x. state-open x y d) (child_runs-open y d) h

  -- A plan that is adopted where none was: a run without a plan has no children.
  adopt_written-IsOrdered :
      (run_id : Text) (plan : ProposedPlan) (state : RunState) (w : Written) (d : Delegation)
      → state_of run_id d ≡ state
      → state.adopted ≡ none
      → IsOrdered limit d
      → IsOrdered limit (adopt_written run_id plan state w d).0
  unfolding adopt_written
  adopt_written-IsOrdered run_id plan state (failed message) d is free h =
      refuse-IsOrdered run_id (write_failed message) none d h
  adopt_written-IsOrdered run_id plan state (written tree) d is free h =
      put-IsOrdered limit run_id
        (record state {
          adopted = some (record { tree = tree; tasks = task_map (tasks_in plan) [] });
        })
        d h
        (λ t c at. absurd (ground (arith, free, (subst AllFollow is (h.follow run_id) t c at).2)))
        (λ at. subst (λ (r : RunState). r.children ≡ []) is (h.leaf run_id at))
        (subst (λ (r : RunState). length r.children ≤ limit run_id) is (h.few run_id))

  adopt_checked-IsOrdered :
      (run_id : Text) (plan : ProposedPlan) (state : RunState) (v : Verdict) (w : Written)
      (d : Delegation)
      → state_of run_id d ≡ state
      → state.adopted ≡ none
      → IsOrdered limit d
      → IsOrdered limit (adopt_checked run_id plan state v w d).0
  unfolding adopt_checked
  adopt_checked-IsOrdered run_id plan state unfinished w d is free h =
      refuse-IsOrdered run_id plan_undecided none d h
  adopt_checked-IsOrdered run_id plan state (refused r) w d is free h =
      refuse-IsOrdered run_id (plan_incoherent r) none d h
  adopt_checked-IsOrdered run_id plan state coherent w d is free h =
      adopt_written-IsOrdered run_id plan state w d is free h

  adopt_raw-IsOrdered :
      (run_id : Text) (state : RunState) (raw : RawPlan) (agents : List AgentRecord)
      (write : ProposedPlan → Written) (d : Delegation)
      → state_of run_id d ≡ state
      → state.adopted ≡ none
      → IsOrdered limit d
      → IsOrdered limit (adopt_raw run_id state raw agents write d).0
  unfolding adopt_raw
  adopt_raw-IsOrdered run_id state not_object agents write d is free h =
      refuse-IsOrdered run_id plan_not_object none d h
  adopt_raw-IsOrdered run_id state malformed agents write d is free h =
      refuse-IsOrdered run_id plan_malformed none d h
  adopt_raw-IsOrdered run_id state (proposed plan) agents write d is free h =
      adopt_checked-IsOrdered run_id plan state (assert_plan_coherent plan (delegable agents))
        (write plan) d is free h

  adopt_opened-IsOrdered :
      (caller : Caller) (state : RunState) (raw : RawPlan) (agents : List AgentRecord)
      (write : ProposedPlan → Written) (d : Delegation)
      → state_of caller.run_id d ≡ state
      → IsOrdered limit d
      → IsOrdered limit (adopt_opened caller state raw agents write d).0
  unfolding adopt_opened
  adopt_opened-IsOrdered caller state raw agents write d is h =
      elim (Bool-cases (is_some state.adopted)) [
        | inl e ↦ rw (e, adopt_opened) (refuse-IsOrdered caller.run_id already_adopted none d h)
        | inr e ↦
            rw (e, adopt_opened)
              (if_both (λ (r : Delegation × Answer). IsOrdered limit r.0)
                (not (is_some caller.project_id)) {x = refuse caller.run_id no_namespace none d}
                {y = adopt_raw caller.run_id state raw agents write d}
                (refuse-IsOrdered caller.run_id no_namespace none d h)
                (adopt_raw-IsOrdered caller.run_id state raw agents write d is (ground (arith, e))
                  h))
      ]

  pub adopt_plan-IsOrdered :
      (caller : Caller) (raw : RawPlan) (agents : List AgentRecord) (write : ProposedPlan → Written)
      (d : Delegation)
      → IsOrdered limit d
      → IsOrdered limit (adopt_plan caller raw agents write d).0
  unfolding adopt_plan
  adopt_plan-IsOrdered caller raw agents write d h =
      adopt_opened-IsOrdered caller (state_of caller.run_id d) raw agents write
        (open_state caller.run_id d) (state-open caller.run_id caller.run_id d)
        (open-IsOrdered caller.run_id d h)

  -- Forgetting a run.
  pub forget-IsOrdered :
      (y : Text) (d : Delegation) → IsOrdered limit d → IsOrdered limit (forget y d)
  unfolding forget get
  forget-IsOrdered y d h = record {
    follow = λ x. by AllFollow x (λ t c at. absurd (ground (arith, at))) (h.follow x);
    leaf = λ x at.
        by (λ (r : RunState). r.children ≡ []) x refl (h.leaf x (has-remove x y d.child_runs at));
    few = λ x. by (λ (r : RunState). length r.children ≤ limit x) x (omega arith) (h.few x);
  }
    where
      by :
          (P : RunState → Type 0) (x : Text)
          → P (record { adopted = none; children = [] })
          → P (state_of x d)
          → P (state_of x (forget y d))
      by P x blank old = subst P (sym (state-forget x y d)) (if_both P (y == x) blank old)

  pub settle-IsOrdered :
      (run_id task_id child : Text) (outcome : RunOutcome) (budget : Budget) (now : ℕ)
      (d : Delegation)
      → ((c : ChildRecord)
          → get task_id (state_of run_id d).children ≡ some c
          → (c.child_run_id == child) ≡ true
          → c.status ≡ none)
      → IsOrdered limit d
      → IsOrdered limit (settle run_id task_id child outcome budget now d).0
  unfolding settle state_of set_status get
  settle-IsOrdered run_id task_id child outcome budget now d pending h = by (get run_id d.runs) refl
    where
      entry : List DelegationEvent
      entry =
          d.log ++ result run_id child outcome.status outcome.cost_micro_usd outcome.tainted ∷ []

      settled : RunState → RunState
      settled s = record s { children = set_status task_id child outcome.status s.children }

      by :
          (o : Option RunState)
          → get run_id d.runs ≡ o
          → IsOrdered limit
              (record (elim o as (λ x. Delegation) [
                | none ↦ d
                | some s ↦ put_state run_id (settled s) d
              ]) { log = entry })
      by none e = same-IsOrdered d (record d { log = entry }) (λ x. refl) refl h
      by (some s) e =
          same-IsOrdered (put_state run_id (settled s) d)
            (record (put_state run_id (settled s) d) { log = entry }) (λ x. refl) refl
            (put-IsOrdered limit run_id (settled s) d h
              (settle-AllFollow s task_id child outcome.status
                (subst AllFollow is (h.follow run_id))
                (subst
                  (λ (r : RunState).
                    (c : ChildRecord)
                    → get task_id r.children ≡ some c
                    → (c.child_run_id == child) ≡ true
                    → c.status ≡ none)
                  is pending))
              (λ at. rw (subst (λ (r : RunState). r.children ≡ []) is (h.leaf run_id at)) refl)
              (subst (λ n. n ≤ limit run_id)
                (sym (length-set_status task_id child outcome.status s.children))
                (subst (λ (r : RunState). length r.children ≤ limit run_id) is (h.few run_id))))
        where
          is : state_of run_id d ≡ s
          is = rw e refl
