-- ===== src/Runtime/Delegation.antt =====
-- runtime/delegate.ts: an orchestrator adopts a plan and hands its tasks to workers. `#delegate` is two
-- operations, up to the wait for the child and from there. `#adoptPlan` is one, although it waits while the
-- goals are written: runtime/loop.ts runs the calls of a run one after another, so none comes between. The
-- agents of the registry, the writer of the goals and the launch of a run are arguments. A refusal carries its
-- reason as data, not as a sentence.
pub mod Handoff
pub mod Ordered
pub mod Reached
pub mod Kept
pub mod Handed
pub mod Admissible
pub mod Launched
pub mod Depth
use mr_robot.Common.{
  ℕ, ◌+◌, Bool, true, false, not, ◌&&◌, ◌||◌, Option, none, some, is_some, get_or, List, [], ◌∷◌,
  ◌++◌, map, length, ltb, leb, if◌then◌else◌,
}
use mr_robot.Common.Text.{Text, ◌==◌}
use mr_robot.Common.Map.{Map, text_eq, get, set, delete, has}
use mr_robot.Runtime.Cron.Match.{trim}
use mr_robot.Runtime.Budget.{Budget, cost, charge, remaining_ms, remaining_micro_usd}
use mr_robot.Goals.Plan.{PlanTask, ProposedPlan}
use mr_robot.Goals.Plan.Coherent.{
  Refusal, Verdict, unfinished, coherent, refused, tasks_in, assert_plan_coherent,
}

abbrev pub brief_max : ℕ
brief_max = 8000

pub data RunStatus : Type 0 where
  ok error killed denied : RunStatus

pub data AgentStatus : Type 0 where
  active archived : AgentStatus

pub data AgentKind : Type 0 where
  standard template ephemeral : AgentKind

pub data AgentRole : Type 0 where
  orchestrator worker : AgentRole

-- What delegation reads of an agent's record.
pub record AgentRecord : Type 0 where
  pub id : Text
  pub status : AgentStatus
  pub kind : AgentKind
  pub role : AgentRole
  pub tier : ℕ
  pub max_children : Option ℕ

-- What it reads of the run that calls.
pub record Caller : Type 0 where
  pub run_id : Text
  pub agent_id : Text
  pub tier : ℕ
  pub project_id : Option Text

pub record WrittenTree : Type 0 where
  pub objective_goal_id : Text
  pub tasks : Map Text Text

pub record AdoptedPlan : Type 0 where
  pub tree : WrittenTree
  pub tasks : Map Text PlanTask

pub record ChildRecord : Type 0 where
  pub child_run_id : Text
  pub status : Option RunStatus

pub record RunState : Type 0 where
  pub adopted : Option AdoptedPlan
  pub children : Map Text ChildRecord

pub data Reason : Type 0 where
  already_adopted no_namespace plan_not_object plan_malformed plan_undecided : Reason
  plan_incoherent : Refusal → Reason
  write_failed : Text → Reason
  task_required brief_required : Reason
  brief_too_long : ℕ → Reason
  depth_capped no_plan not_in_plan already_delegated : Reason
  waits_for : Text → Option ChildRecord → Reason
  too_many_children : ℕ → Reason
  not_active_worker : Text → Reason
  above_tier : ℕ → Reason
  no_budget : Reason

pub record Launch : Type 0 where
  pub agent_id : Text
  pub task : PlanTask
  pub brief : Text
  pub goal_id : Text
  pub usd_max : ℕ
  pub wallclock_ms : ℕ

pub data DelegationEvent : Type 0 where
  refusal : Text → Option Text → Reason → DelegationEvent
  admitted : Text → Text → Text → Launch → DelegationEvent
  result : Text → Text → RunStatus → ℕ → Bool → DelegationEvent

pub record Delegation : Type 0 where
  pub runs : Map Text RunState
  pub child_runs : List Text
  pub log : List DelegationEvent

pub data Answer : Type 0 where
  refused_for : Reason → Answer
  adopted_as : AdoptedPlan → Answer
  waits_on : Launch → Answer

abbrev pub create : Delegation
create = record { runs = []; child_runs = []; log = [] }

-- `#state`, read: an absent run has no plan and no children.
unfoldable pub state_of : Text → Delegation → RunState
state_of run_id d = get_or (get run_id d.runs) (record { adopted = none; children = [] })

abbrev pub put_state : Text → RunState → Delegation → Delegation
put_state run_id s d = record d { runs = set run_id s d.runs }

-- `#state`, which opens an entry for an absent run.
unfoldable pub open_state : Text → Delegation → Delegation
open_state run_id d = elim (get run_id d.runs) [
  | some s ↦ d
  | none ↦ put_state run_id (record { adopted = none; children = [] }) d
]

-- `#childRuns.delete(runId)`
unfoldable pub remove : Text → List Text → List Text
remove x [] = []
remove x (y ∷ ys) = let rest = remove x ys in if y == x then rest else y ∷ rest

-- `forget`
unfoldable pub forget : Text → Delegation → Delegation
forget run_id d = record d { runs = delete run_id d.runs; child_runs = remove run_id d.child_runs }

-- `#refuse`
unfoldable pub refuse : Text → Reason → Option Text → Delegation → Delegation × Answer
refuse run_id reason task_id d =
    (record d { log = d.log ++ refusal run_id task_id reason ∷ [] }, refused_for reason)

unfoldable pub is_active_worker : AgentRecord → Bool
is_active_worker a = elim a.status [
  | archived ↦ false
  | active ↦ elim a.kind [
    | template ↦ false
    | ephemeral ↦ false
    | standard ↦ elim a.role [ orchestrator ↦ false | worker ↦ true ]
  ]
]

-- `#delegable`
unfoldable pub delegable : List AgentRecord → List Text
delegable [] = []
delegable (a ∷ agents) =
    let rest = delegable agents in if is_active_worker a then a.id ∷ rest else rest

-- What the model's argument is, once it is parsed by its schema.
pub data RawPlan : Type 0 where
  not_object malformed : RawPlan
  proposed : ProposedPlan → RawPlan

pub data Written : Type 0 where
  failed : Text → Written
  written : WrittenTree → Written

-- `new Map(tasksOf(plan).map(({ task }) => [task.id, task]))`
unfoldable pub task_map : List PlanTask → Map Text PlanTask → Map Text PlanTask
task_map [] m = m
task_map (t ∷ tasks) m = task_map tasks (set t.id t m)

unfoldable pub adopt_written :
    Text → ProposedPlan → RunState → Written → Delegation → Delegation × Answer
adopt_written run_id plan state (failed message) d = refuse run_id (write_failed message) none d
adopt_written run_id plan state (written tree) d =
    let adopted : AdoptedPlan = record { tree = tree; tasks = task_map (tasks_in plan) [] } in
    (put_state run_id (record state { adopted = some adopted }) d, adopted_as adopted)

unfoldable pub adopt_checked :
    Text → ProposedPlan → RunState → Verdict → Written → Delegation → Delegation × Answer
adopt_checked run_id plan state unfinished w d = refuse run_id plan_undecided none d
adopt_checked run_id plan state (refused r) w d = refuse run_id (plan_incoherent r) none d
adopt_checked run_id plan state coherent w d = adopt_written run_id plan state w d

unfoldable pub adopt_raw :
    Text
    → RunState
    → RawPlan
    → List AgentRecord
    → (ProposedPlan → Written)
    → Delegation
    → Delegation × Answer
adopt_raw run_id state not_object agents write d = refuse run_id plan_not_object none d
adopt_raw run_id state malformed agents write d = refuse run_id plan_malformed none d
adopt_raw run_id state (proposed plan) agents write d =
    adopt_checked run_id plan state (assert_plan_coherent plan (delegable agents)) (write plan) d

unfoldable pub adopt_opened :
    Caller
    → RunState
    → RawPlan
    → List AgentRecord
    → (ProposedPlan → Written)
    → Delegation
    → Delegation × Answer
adopt_opened caller state raw agents write d =
    if is_some state.adopted
    then refuse caller.run_id already_adopted none d
    else if not (is_some caller.project_id)
    then refuse caller.run_id no_namespace none d
    else adopt_raw caller.run_id state raw agents write d

-- `#adoptPlan`, its wait for the writer of the goals included.
unfoldable pub adopt_plan :
    Caller
    → RawPlan
    → List AgentRecord
    → (ProposedPlan → Written)
    → Delegation
    → Delegation × Answer
adopt_plan caller raw agents write d =
    adopt_opened caller (state_of caller.run_id d) raw agents write (open_state caller.run_id d)
