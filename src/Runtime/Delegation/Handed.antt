-- ===== src/Runtime/Delegation/Handed.antt =====
-- Handing a task to a worker, in runtime/delegate.ts, keeps a state ordered.
use mr_robot.Common.{
  ℕ, suc, ◌≤◌, ◌≡◌, refl, sym, ap, ◌∙◌, subst, inl, inr, false, Option, none, some, get_or, List,
  [], ◌∷◌, length, arith, if◌then◌else◌, Bool-cases,
}
use mr_robot.Common.Text.{Text, ◌==◌, eq_iff}
use mr_robot.Common.Map.{text_eq, get, set, has, has-snoc}
use mr_robot.Goals.Plan.{PlanTask}
use mr_robot.Runtime.Budget.{Budget, remaining_ms, remaining_micro_usd}
use mr_robot.Runtime.Delegation.{
  AgentRecord, Caller, AdoptedPlan, RunState, Reason, Delegation, Answer, Launch, no_plan,
  not_in_plan, depth_capped, state_of, put_state, open_state, refuse,
}
use mr_robot.Runtime.Delegation.Handoff.{
  finished_well, first_waiting, check_place, check_target, check_budget, first_refusal, admit,
  task_checks, delegate_asked, delegate_planned, delegate_task, target_id, check_brief,
}
use mr_robot.Runtime.Delegation.Ordered.{
  Follows, AllFollow, IsOrdered, state-put, state-open, child_runs-open, put-IsOrdered,
  set-AllFollow, length-set,
}
use mr_robot.Runtime.Delegation.Kept.{refuse-IsOrdered, open-IsOrdered}

-- The most children that the caller's record gives.
abbrev pub max_children : (Text → Option AgentRecord) → Text → Option ℕ
max_children agents id = elim (agents id) [ none ↦ none | some a ↦ a.max_children ]

first_none :
    (r : Option Reason) (rest : List (Option Reason)) → first_refusal (r ∷ rest) ≡ none → r ≡ none
unfolding first_refusal
first_none none rest e = refl
first_none (some r) rest e = absurd (ground (arith, e))

-- What the checks of a task's place have found when they refuse nothing.
pub check_place-none :
    (state : RunState) (m : Option ℕ) (t : Text) (task : PlanTask)
    → check_place state m t task ≡ none
    → (get t state.children ≡ none)
      × (first_waiting state.children task.depends_on ≡ none)
      × (suc (length state.children) ≤ get_or m 0)
unfolding check_place
check_place-none state m t task e = ground (arith, e)

module _ (limit : Text → ℕ) where
  admit-IsOrdered :
      (caller : Caller) (state : RunState) (t child : Text) (launch : Launch) (d : Delegation)
      → state_of caller.run_id d ≡ state
      → Follows state t
      → get t state.children ≡ none
      → has caller.run_id d.child_runs ≡ false
      → suc (length state.children) ≤ limit caller.run_id
      → state_of child d ≡ record { adopted = none; children = [] }
      → IsOrdered limit d
      → IsOrdered limit (admit caller state t child launch d).0
  unfolding admit finished_well state_of
  admit-IsOrdered caller state t child launch d is turn free root few fresh h = record {
    follow = placed.follow;
    leaf = λ x at. elim (Bool-cases (has x d.child_runs)) [
      | inl old ↦ placed.leaf x old
      | inr new ↦
          subst (λ k. (state_of k after_put).children ≡ [])
            ((eq_iff child x).0 (ground (arith, at, new, has-snoc x child d.child_runs))) blank
    ];
    few = placed.few;
  }
    where
      next : RunState
      next = record state {
        children = set t (record { child_run_id = child; status = none }) state.children;
      }

      after_put : Delegation
      after_put = put_state caller.run_id next d

      placed : IsOrdered limit after_put
      placed =
          put-IsOrdered limit caller.run_id next d h
            (set-AllFollow state t (record { child_run_id = child; status = none })
              (subst AllFollow is (h.follow caller.run_id)) turn (rw free refl))
            (λ at. absurd (ground (arith, at, root)))
            (omega (
              arith,
              few,
              length-set t (record { child_run_id = child; status = none }) state.children,
            ))

      clash : state_of child d ≡ state → ⊥
      clash e = ground (
        arith,
        turn.2,
        ap (λ (r : RunState). r.adopted) e,
        ap (λ (r : RunState). r.adopted) fresh,
      )

      other : (caller.run_id == child) ≡ false
      other = elim (Bool-cases (caller.run_id == child)) [
        | inr e ↦ e
        | inl e ↦
            absurd (clash (subst (λ k. state_of k d ≡ state) ((eq_iff caller.run_id child).0 e) is))
      ]

      blank : (state_of child after_put).children ≡ []
      blank =
          subst (λ (r : RunState). r.children ≡ []) (sym (state-put child caller.run_id next d))
            (rw other (rw fresh refl))

  delegate_task-IsOrdered :
      (caller : Caller) (agents : Text → Option AgentRecord) (budget : Budget) (now : ℕ)
      (child brief : Text) (state : RunState) (t : Text) (task : PlanTask) (goal : Text)
      (plan : AdoptedPlan) (d : Delegation)
      → state_of caller.run_id d ≡ state
      → state.adopted ≡ some plan
      → get t plan.tasks ≡ some task
      → has caller.run_id d.child_runs ≡ false
      → get_or (max_children agents caller.agent_id) 0 ≤ limit caller.run_id
      → state_of child d ≡ record { adopted = none; children = [] }
      → IsOrdered limit d
      → IsOrdered limit (delegate_task caller agents budget now child brief state t task goal d).0
  unfolding delegate_task
  delegate_task-IsOrdered caller agents budget now child brief state t task goal plan d is has_plan
        has_task root most fresh h =
      by (task_checks caller agents budget now state t task) refl
    where
      launch : Launch
      launch = record {
        agent_id = target_id task.template (agents task.template);
        task = task;
        brief = brief;
        goal_id = goal;
        usd_max = remaining_micro_usd budget;
        wallclock_ms = remaining_ms budget now;
      }

      by :
          (o : Option Reason)
          → task_checks caller agents budget now state t task ≡ o
          → IsOrdered limit
              (elim o as (λ x. Delegation × Answer) [
                | some r ↦ refuse caller.run_id r (some t) d
                | none ↦ admit caller state t child launch d
              ]).0
      by (some r) e = refuse-IsOrdered limit caller.run_id r (some t) d h
      by none e =
          admit-IsOrdered caller state t child launch d is (plan, task, has_plan, has_task, place.1)
            place.0 root (omega (arith, place.2, most)) fresh h
        where
          place :
              (get t state.children ≡ none)
              × (first_waiting state.children task.depends_on ≡ none)
              × (suc (length state.children) ≤ get_or (max_children agents caller.agent_id) 0)
          place = check_place-none state (max_children agents caller.agent_id) t task (
              first_none (check_place state (max_children agents caller.agent_id) t task)
                (check_target caller task.template (agents task.template)
                  ∷ check_budget budget now
                  ∷ [])
                e)

  delegate_planned-IsOrdered :
      (caller : Caller) (agents : Text → Option AgentRecord) (budget : Budget) (now : ℕ)
      (child brief : Text) (state : RunState) (t : Text) (d : Delegation)
      → state_of caller.run_id d ≡ state
      → has caller.run_id d.child_runs ≡ false
      → get_or (max_children agents caller.agent_id) 0 ≤ limit caller.run_id
      → state_of child d ≡ record { adopted = none; children = [] }
      → IsOrdered limit d
      → IsOrdered limit
          (delegate_planned caller agents budget now child brief state t state.adopted d).0
  unfolding delegate_planned
  delegate_planned-IsOrdered caller agents budget now child brief state t d is root most fresh h =
      by state.adopted refl
    where
      given :
          (plan : AdoptedPlan) (o : Option PlanTask) (g : Option Text)
          → state.adopted ≡ some plan
          → get t plan.tasks ≡ o
          → IsOrdered limit
              (elim o as (λ x. Delegation × Answer) [
                | none ↦ refuse caller.run_id not_in_plan (some t) d
                | some task ↦ elim g as (λ x. Delegation × Answer) [
                  | none ↦ refuse caller.run_id not_in_plan (some t) d
                  | some goal ↦
                      delegate_task caller agents budget now child brief state t task goal d
                ]
              ]).0
      given plan none g e f = refuse-IsOrdered limit caller.run_id not_in_plan (some t) d h
      given plan (some task) none e f =
          refuse-IsOrdered limit caller.run_id not_in_plan (some t) d h
      given plan (some task) (some goal) e f =
          delegate_task-IsOrdered caller agents budget now child brief state t task goal plan d is e
            f root most fresh h

      by :
          (o : Option AdoptedPlan)
          → state.adopted ≡ o
          → IsOrdered limit (delegate_planned caller agents budget now child brief state t o d).0
      by none e = refuse-IsOrdered limit caller.run_id no_plan (some t) d h
      by (some plan) e = given plan (get t plan.tasks) (get t plan.tree.tasks) e refl

  pub delegate_asked-IsOrdered :
      (caller : Caller) (agents : Text → Option AgentRecord) (budget : Budget) (now : ℕ)
      (child t : Text) (brief : Option Text) (d : Delegation)
      → get_or (max_children agents caller.agent_id) 0 ≤ limit caller.run_id
      → get child d.runs ≡ none
      → IsOrdered limit d
      → IsOrdered limit (delegate_asked caller agents budget now child t brief d).0
  unfolding delegate_asked state_of
  delegate_asked-IsOrdered caller agents budget now child t brief d most fresh h =
      by (check_brief t brief)
    where
      blank : state_of child (open_state caller.run_id d) ≡ record { adopted = none; children = [] }
      blank = state-open child caller.run_id d ∙ rw (fresh, state_of) refl

      opened_runs : (open_state caller.run_id d).child_runs ≡ d.child_runs
      opened_runs = child_runs-open caller.run_id d

      planned :
          has caller.run_id d.child_runs ≡ false
          → IsOrdered limit
              (delegate_planned caller agents budget now child
                (get_or brief [])
                (state_of caller.run_id d)
                t
                (state_of caller.run_id d).adopted
                (open_state caller.run_id d)).0
      planned root =
          delegate_planned-IsOrdered caller agents budget now child (get_or brief [])
            (state_of caller.run_id d) t (open_state caller.run_id d)
            (state-open caller.run_id caller.run_id d)
            (subst (λ l. has caller.run_id l ≡ false) (sym opened_runs) root) most blank
            (open-IsOrdered limit caller.run_id d h)

      by :
          (o : Option Reason)
          → IsOrdered limit
              (elim o as (λ x. Delegation × Answer) [
                | some r ↦ refuse caller.run_id r (some t) d
                | none ↦
                    if has caller.run_id d.child_runs
                    then refuse caller.run_id depth_capped (some t) d
                    else delegate_planned caller agents budget now child
                        (get_or brief [])
                        (state_of caller.run_id d)
                        t
                        (state_of caller.run_id d).adopted
                        (open_state caller.run_id d)
              ]).0
      by (some r) = refuse-IsOrdered limit caller.run_id r (some t) d h
      by none = elim (Bool-cases (has caller.run_id d.child_runs)) [
        | inl e ↦ rw e (refuse-IsOrdered limit caller.run_id depth_capped (some t) d h)
        | inr e ↦ rw e (planned e)
      ]
