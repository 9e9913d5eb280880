-- ===== src/Runtime/Delegation/Reached.antt =====
-- Every state that the calls of runtime/delegate.ts lead to is ordered.
use mr_robot.Common.{
  ℕ, ◌≤◌, ◌≡◌, refl, sym, ap, ◌∙◌, subst, inl, inr, Bool, true, false, not, ◌&&◌, ◌||◌, Option,
  none, some, get_or, List, [], ◌∷◌, length, arith, if◌then◌else◌, Bool-cases, some-injective,
}
use mr_robot.Common.Text.{Text, ◌==◌, eq_iff}
use mr_robot.Common.Map.{Map, text_eq, get, has, has-snoc}
use mr_robot.Goals.Plan.{PlanTask, ProposedPlan}
use mr_robot.Runtime.Budget.{Budget}
use mr_robot.Runtime.Delegation.{
  AgentRecord, Caller, AdoptedPlan, ChildRecord, Delegation, task_required, RawPlan, Written,
  create, state_of, forget, adopt_plan,
}
use mr_robot.Runtime.Delegation.Handoff.{finished_well, RunOutcome, first_waiting, delegate, settle}
use mr_robot.Runtime.Delegation.Ordered.{Follows, IsOrdered}
use mr_robot.Runtime.Delegation.Kept.{
  refuse-IsOrdered, adopt_plan-IsOrdered, forget-IsOrdered, settle-IsOrdered,
}
use mr_robot.Runtime.Delegation.Handed.{max_children, delegate_asked-IsOrdered}
use mr_robot.Runtime.Delegation.Depth.{
  launched, adopt-Quiet, settle-Quiet, delegate-Launches, has-remove_other,
}

-- The calls of the handlers, in any order: the run that a launch starts is a new one, a child finishes
-- once, and no record of a run's agent gives it more children than `limit`.
pub data Reaches (limit : Text → ℕ) : Delegation → Type 0 where
  creates : Reaches limit create
  adopts :
      {d : Delegation} (caller : Caller) (raw : RawPlan) (agents : List AgentRecord)
      (write : ProposedPlan → Written)
      → Reaches limit d
      → Reaches limit (adopt_plan caller raw agents write d).0
  delegates :
      {d : Delegation} (caller : Caller) (agents : Text → Option AgentRecord) (budget : Budget)
      (now : ℕ) (child : Text) (task_id brief : Option Text)
      → get_or (max_children agents caller.agent_id) 0 ≤ limit caller.run_id
      → get child d.runs ≡ none
      → Reaches limit d
      → Reaches limit (delegate caller agents budget now child task_id brief d).0
  settles :
      {d : Delegation} (run_id task_id child : Text) (outcome : RunOutcome) (budget : Budget)
      (now : ℕ)
      → ((c : ChildRecord)
          → get task_id (state_of run_id d).children ≡ some c
          → (c.child_run_id == child) ≡ true
          → c.status ≡ none)
      → Reaches limit d
      → Reaches limit (settle run_id task_id child outcome budget now d).0
  forgets : {d : Delegation} (run_id : Text) → Reaches limit d → Reaches limit (forget run_id d)

reached-IsOrdered : (limit : Text → ℕ) {d : Delegation} → Reaches limit d → IsOrdered limit d
unfolding state_of get delegate
reached-IsOrdered limit creates = record {
  follow = λ x t c at. absurd (ground (arith, at));
  leaf = λ x at. refl;
  few = λ x. omega arith;
}
reached-IsOrdered limit (adopts {d = d} caller raw agents write r) =
    adopt_plan-IsOrdered limit caller raw agents write d (reached-IsOrdered limit r)
reached-IsOrdered limit (delegates {d = d} caller agents budget now child none brief most fresh r) =
    refuse-IsOrdered limit caller.run_id task_required none d (reached-IsOrdered limit r)
reached-IsOrdered limit
      (delegates {d = d} caller agents budget now child (some []) brief most fresh r) =
    refuse-IsOrdered limit caller.run_id task_required none d (reached-IsOrdered limit r)
reached-IsOrdered limit
      (delegates {d = d} caller agents budget now child (some (u ∷ t)) brief most fresh r) =
    delegate_asked-IsOrdered limit caller agents budget now child (u ∷ t) brief d most fresh
      (reached-IsOrdered limit r)
reached-IsOrdered limit (settles {d = d} run_id task_id child outcome budget now pending r) =
    settle-IsOrdered limit run_id task_id child outcome budget now d pending
      (reached-IsOrdered limit r)
reached-IsOrdered limit (forgets {d = d} run_id r) =
    forget-IsOrdered limit run_id d (reached-IsOrdered limit r)

pub first_waiting-none :
    (m : Map Text ChildRecord) (dep : Text) (deps : List Text)
    → first_waiting m deps ≡ none
    → has dep deps ≡ true
    → finished_well (get dep m) ≡ true
unfolding first_waiting has
first_waiting-none m dep [] e at = ground arith
first_waiting-none m dep (k ∷ deps) e at = elim (Bool-cases (k == dep)) [
  | inl same ↦
      subst (λ j. finished_well (get j m) ≡ true) ((eq_iff k dep).0 same) (ground (arith, e))
  | inr other ↦ first_waiting-none m dep deps (ground (arith, e)) (ground (arith, at, other))
]

-- In every state that is reached, when a task of the plan that a run has adopted has a child, every task
-- that it depends on has a child that finished with the status ok.
pub dependencies_finish_first :
    (limit : Text → ℕ) (d : Delegation) (run_id task_id dep : Text) (plan : AdoptedPlan)
    (task : PlanTask) (c : ChildRecord)
    → Reaches limit d
    → (state_of run_id d).adopted ≡ some plan
    → get task_id plan.tasks ≡ some task
    → get task_id (state_of run_id d).children ≡ some c
    → has dep task.depends_on ≡ true
    → finished_well (get dep (state_of run_id d).children) ≡ true
dependencies_finish_first limit d run_id task_id dep plan task c r has_plan has_task at needs =
    of_follows ((reached-IsOrdered limit r).follow run_id task_id c at)
  where
    of_follows :
        Follows (state_of run_id d) task_id
        → finished_well (get dep (state_of run_id d).children) ≡ true
    of_follows (other, job, adopts_it, has_job, waits) =
        first_waiting-none (state_of run_id d).children dep task.depends_on
          (subst (λ (t : PlanTask). first_waiting (state_of run_id d).children t.depends_on ≡ none)
            same waits)
          needs
      where
        same : job ≡ task
        same = some-injective job task (
            sym has_job
            ∙ ap (λ (p : AdoptedPlan). get task_id p.tasks)
                (some-injective other plan (sym adopts_it ∙ has_plan))
            ∙ has_task)

-- Whether a trace forgets a run, as kernel.ts does when the end of the run is recorded.
unfoldable pub forgotten : {limit : Text → ℕ} {d : Delegation} → Text → Reaches limit d → Bool
forgotten x creates = false
forgotten x (adopts caller raw agents write r) = forgotten x r
forgotten x (delegates caller agents budget now child task_id brief most fresh r) = forgotten x r
forgotten x (settles run_id task_id child outcome budget now pending r) = forgotten x r
forgotten x (forgets run_id r) = run_id == x || forgotten x r

-- A run that a delegation launched is among the child runs until it is forgotten.
launched_is_child :
    (limit : Text → ℕ) (x : Text) {d : Delegation} (r : Reaches limit d)
    → launched x d.log ≡ true
    → forgotten x r ≡ false
    → has x d.child_runs ≡ true
unfolding forgotten launched forget
launched_is_child limit x creates at kept = ground (arith, at)
launched_is_child limit x (adopts {d = d} caller raw agents write r) at kept =
    let q = adopt-Quiet x caller raw agents write d in
    rw q.same_runs (launched_is_child limit x r (sym q.same_rows ∙ at) kept)
launched_is_child limit x
      (delegates {d = d} caller agents budget now child task_id brief most fresh r) at kept =
    elim (delegate-Launches x caller agents budget now child task_id brief d) [
      | inl q ↦ rw q.same_runs (launched_is_child limit x r (sym q.same_rows ∙ at) kept)
      | inr (runs, rows) ↦
          rw (runs, has-snoc x child d.child_runs)
            (ground (arith, at, rows, launched_is_child limit x r, kept))
    ]
launched_is_child limit x (settles {d = d} run_id task_id child outcome budget now pending r) at
      kept =
    let q = settle-Quiet x run_id task_id child outcome budget now d in
    rw q.same_runs (launched_is_child limit x r (sym q.same_rows ∙ at) kept)
launched_is_child limit x (forgets {d = d} run_id r) at kept =
    rw (has-remove_other x run_id d.child_runs (ground (arith, kept)))
      (launched_is_child limit x r at (ground (arith, kept)))

-- In every state that is reached, a run has no more children than the records of its agent give it, and
-- none at all when the log has a row of its launch by a delegation and the trace has not forgotten it.
pub delegation_is_bounded :
    (limit : Text → ℕ) (d : Delegation) (run_id : Text) (r : Reaches limit d)
    → length (state_of run_id d).children
      ≤ (if launched run_id d.log && not (forgotten run_id r) then 0 else limit run_id)
delegation_is_bounded limit d run_id r =
    elim (Bool-cases (launched run_id d.log && not (forgotten run_id r))) [
      | inl child ↦ rw child (
          rw
            ((reached-IsOrdered limit r).leaf run_id
              (launched_is_child limit run_id r (ground (arith, child)) (ground (arith, child))))
            (omega arith))
      | inr root ↦ rw root ((reached-IsOrdered limit r).few run_id)
    ]
