-- ===== src/Runtime/Delegation/Depth.antt =====
-- What the calls of runtime/delegate.ts do to the set of child runs and to the rows of the launches.
use mr_robot.Common.{
  ℕ, ◌≡◌, refl, inl, inr, ◌⊎◌, Bool, true, false, ◌||◌, Option, none, some, get_or, List, [], ◌∷◌,
  ◌++◌, arith, if◌then◌else◌,
}
use mr_robot.Common.Text.{Text, ◌==◌, eq_iff}
use mr_robot.Common.Map.{text_eq, get, has}
use mr_robot.Goals.Plan.{PlanTask, ProposedPlan}
use mr_robot.Runtime.Budget.{Budget, remaining_ms, remaining_micro_usd}
use mr_robot.Runtime.Delegation.{
  AgentRecord, Caller, AdoptedPlan, RunState, Reason, Delegation, DelegationEvent, Answer, Launch,
  RawPlan, Written, refusal, admitted, result, refuse, adopt_plan, adopt_opened, adopt_raw,
  adopt_checked, adopt_written, open_state, state_of, remove, no_plan, not_in_plan, depth_capped,
  task_required,
}
use mr_robot.Runtime.Delegation.Handoff.{
  admit, target_id, check_brief, task_checks, delegate, delegate_asked, delegate_planned,
  delegate_task, RunOutcome, settle,
}

-- Whether a row of the log says that a run was launched by a delegation.
unfoldable pub launched : Text → List DelegationEvent → Bool
launched x [] = false
launched x (refusal run_id task_id why ∷ log) = launched x log
launched x (admitted run_id child task_id launch ∷ log) = child == x || launched x log
launched x (result run_id child status cost tainted ∷ log) = launched x log

launched-append :
    (x : Text) (log more : List DelegationEvent)
    → launched x (log ++ more) ≡ (launched x log || launched x more)
unfolding launched
launched-append x [] more = refl
launched-append x (refusal run_id task_id why ∷ log) more = launched-append x log more
launched-append x (admitted run_id child task_id launch ∷ log) more =
    ground (arith, launched-append x log more)
launched-append x (result run_id child status cost tainted ∷ log) more = launched-append x log more

-- No run is launched.
pub record Quiet (x : Text) (d e : Delegation) : Type 0 where
  pub same_runs : e.child_runs ≡ d.child_runs
  pub same_rows : launched x e.log ≡ launched x d.log

refuse-Quiet :
    (x run_id : Text) (why : Reason) (task_id : Option Text) (d : Delegation)
    → Quiet x d (refuse run_id why task_id d).0
unfolding refuse launched
refuse-Quiet x run_id why task_id d = record {
  same_runs = refl;
  same_rows = ground (arith, launched-append x d.log (refusal run_id task_id why ∷ []));
}

pub settle-Quiet :
    (x run_id task_id child : Text) (outcome : RunOutcome) (budget : Budget) (now : ℕ)
    (d : Delegation)
    → Quiet x d (settle run_id task_id child outcome budget now d).0
unfolding settle launched
settle-Quiet x run_id task_id child outcome budget now d = record {
  same_runs = ground arith;
  same_rows = ground (
    arith,
    launched-append x d.log
        (result run_id child outcome.status outcome.cost_micro_usd outcome.tainted ∷ []),
  );
}

pub adopt-Quiet :
    (x : Text) (caller : Caller) (raw : RawPlan) (agents : List AgentRecord)
    (write : ProposedPlan → Written) (d : Delegation)
    → Quiet x d (adopt_plan caller raw agents write d).0
unfolding adopt_plan adopt_opened adopt_raw adopt_checked adopt_written refuse launched open_state
adopt-Quiet x caller raw agents write d = record {
  same_runs = ground arith;
  same_rows = grind (arith, launched-append);
}

-- At most the given run is launched.
abbrev pub Launches : Text → Text → Delegation → Delegation → Type 0
Launches x child d e =
    Quiet x d e
    ⊎ ((e.child_runs ≡ d.child_runs ++ child ∷ [])
        × (launched x e.log ≡ (launched x d.log || child == x)))

admit-Launches :
    (x : Text) (caller : Caller) (state : RunState) (t child : Text) (launch : Launch)
    (d : Delegation)
    → Launches x child d (admit caller state t child launch d).0
unfolding admit launched
admit-Launches x caller state t child launch d =
    inr (refl, ground (arith, launched-append x d.log (admitted caller.run_id child t launch ∷ [])))

module _ (x : Text) (caller : Caller) (agents : Text → Option AgentRecord) (budget : Budget)
    (now : ℕ) (child : Text) where
  task-Launches :
      (brief : Text) (state : RunState) (t : Text) (task : PlanTask) (goal : Text) (d : Delegation)
      → Launches x child d
          (delegate_task caller agents budget now child brief state t task goal d).0
  unfolding delegate_task
  task-Launches brief state t task goal d = by (task_checks caller agents budget now state t task)
    where
      launch : Launch
      launch = record {
        agent_id = target_id task.template (agents task.template);
        task = task;
        brief = brief;
        goal_id = goal;
        usd_max = remaining_micro_usd budget;
        wallclock_ms = remaining_ms budget now;
      }

      by :
          (o : Option Reason)
          → Launches x child d
              (elim o as (λ x. Delegation × Answer) [
                | some r ↦ refuse caller.run_id r (some t) d
                | none ↦ admit caller state t child launch d
              ]).0
      by (some r) = inl (refuse-Quiet x caller.run_id r (some t) d)
      by none = admit-Launches x caller state t child launch d

  planned-Launches :
      (brief : Text) (state : RunState) (t : Text) (o : Option AdoptedPlan) (d : Delegation)
      → Launches x child d (delegate_planned caller agents budget now child brief state t o d).0
  unfolding delegate_planned
  planned-Launches brief state t none d = inl (refuse-Quiet x caller.run_id no_plan (some t) d)
  planned-Launches brief state t (some plan) d = by (get t plan.tasks) (get t plan.tree.tasks)
    where
      by :
          (o : Option PlanTask) (g : Option Text)
          → Launches x child d
              (elim o as (λ x. Delegation × Answer) [
                | none ↦ refuse caller.run_id not_in_plan (some t) d
                | some task ↦ elim g as (λ x. Delegation × Answer) [
                  | none ↦ refuse caller.run_id not_in_plan (some t) d
                  | some goal ↦
                      delegate_task caller agents budget now child brief state t task goal d
                ]
              ]).0
      by none g = inl (refuse-Quiet x caller.run_id not_in_plan (some t) d)
      by (some task) none = inl (refuse-Quiet x caller.run_id not_in_plan (some t) d)
      by (some task) (some goal) = task-Launches brief state t task goal d

  asked-Launches :
      (t : Text) (brief : Option Text) (d : Delegation)
      → Launches x child d (delegate_asked caller agents budget now child t brief d).0
  unfolding delegate_asked open_state
  asked-Launches t brief d = by (check_brief t brief) (has caller.run_id d.child_runs)
    where
      opened :
          (e : Delegation) → Launches x child (open_state caller.run_id d) e → Launches x child d e
      opened e h = ground (arith, h)

      by :
          (o : Option Reason) (b : Bool)
          → Launches x child d
              (elim o as (λ x. Delegation × Answer) [
                | some r ↦ refuse caller.run_id r (some t) d
                | none ↦
                    if b
                    then refuse caller.run_id depth_capped (some t) d
                    else delegate_planned caller agents budget now child
                        (get_or brief [])
                        (state_of caller.run_id d)
                        t
                        (state_of caller.run_id d).adopted
                        (open_state caller.run_id d)
              ]).0
      by (some r) b = inl (refuse-Quiet x caller.run_id r (some t) d)
      by none true = inl (refuse-Quiet x caller.run_id depth_capped (some t) d)
      by none false = opened _ (
          planned-Launches (get_or brief []) (state_of caller.run_id d) t
            (state_of caller.run_id d).adopted (open_state caller.run_id d))

  pub delegate-Launches :
      (task_id brief : Option Text) (d : Delegation)
      → Launches x child d (delegate caller agents budget now child task_id brief d).0
  unfolding delegate
  delegate-Launches none brief d = inl (refuse-Quiet x caller.run_id task_required none d)
  delegate-Launches (some []) brief d = inl (refuse-Quiet x caller.run_id task_required none d)
  delegate-Launches (some (u ∷ t)) brief d = asked-Launches (u ∷ t) brief d

pub has-remove_other :
    (x y : Text) (l : List Text) → (y == x) ≡ false → has x (remove y l) ≡ has x l
unfolding has remove
has-remove_other x y [] differ = refl
has-remove_other x y (z ∷ l) differ =
    ground (arith, differ, has-remove_other x y l differ, eq_iff z y, eq_iff z x, eq_iff y x)
