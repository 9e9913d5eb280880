-- ===== src/Runtime/Scheduler.antt =====
-- runtime/scheduler.ts: ticks that start the runs of agents with a schedule. What the scheduler asks of the
-- kernel is the `World` of one tick; the rows of the log that it writes are `claims`, and the runs that it
-- starts are `starts`. The interval of the timer is whether it is set.
pub mod Claims
pub mod Once
use mr_robot.Common.{
  Bool, true, false, not, ◌&&◌, Option, none, some, List, [], ◌∷◌, ◌++◌, map, if◌then◌else◌, ℕ, ◌≤◌,
}
use mr_robot.Common.Text.{Text, text, ◌==◌}
use mr_robot.Common.Map.{Map, text_eq, get, set}
use mr_robot.Runtime.Cron.{CronExpr}
use mr_robot.Runtime.Cron.Match.{parse_cron, cron_matches}
use mr_robot.Runtime.Cron.Key.{LocalDate, minute_key}

pub record ScheduledAgent : Type 0 where
  pub agent_id : Text
  pub schedule : Text

-- The payload of a `run.scheduled` row.
pub record Claim : Type 0 where
  pub agent_id : Text
  pub schedule : Text
  pub minute : Text

-- The agents, and for each whether it is busy, whether the store takes its row, and whether its run starts.
pub record World : Type 0 where
  pub agents : List ScheduledAgent
  pub busy : Text → Bool
  pub takes : Text → Bool
  pub launches : Text → Bool

pub record Scheduler : Type 0 where
  pub fired : Map Text Text
  pub compiled : Map Text CronExpr
  pub ticking : Bool
  pub started : Bool
  pub claims : List Claim
  pub starts : List Claim

-- A new scheduler over a log.
abbrev pub create : List Claim → Scheduler
create log = record {
  fired = [];
  compiled = [];
  ticking = false;
  started = false;
  claims = log;
  starts = [];
}

-- `#seedFromLog`: the rows come in their order, so the last one of an agent wins.
unfoldable pub seed : List Claim → Map Text Text → Map Text Text
seed [] fired = fired
seed (c ∷ log) fired = seed log (set c.agent_id c.minute fired)

unfoldable pub start : Scheduler → Scheduler
start s =
    if s.started
    then s
    else record s { started = true; ticking = true; fired = seed s.claims s.fired }

unfoldable pub stop : Scheduler → Scheduler
stop s = record s { ticking = false; started = false }

-- `#exprFor`, with the map as it leaves it; `none` is a thrown ConfigError.
unfoldable pub expr_for : Map Text CronExpr → Text → Option (CronExpr × Map Text CronExpr)
expr_for compiled schedule = elim (get schedule compiled) [
  | some expr ↦ some (expr, compiled)
  | none ↦ elim (parse_cron schedule) [
    | none ↦ none
    | some expr ↦ some (expr, set schedule expr compiled)
  ]
]

unfoldable pub has_fired : Map Text Text → Text → Text → Bool
has_fired fired agent key = elim (get agent fired) [ none ↦ false | some last ↦ last == key ]

abbrev pub claim_of : ScheduledAgent → Text → Claim
claim_of a key = record { agent_id = a.agent_id; schedule = a.schedule; minute = key }

-- The claim of a minute and what follows it: the row, the check that the agent is idle, the run. The
-- second part is false if the store threw, which ends the tick.
unfoldable pub claim : World → Scheduler → ScheduledAgent → Text → Scheduler × Bool
claim w s a key =
    let c = claim_of a key in
    let marked = record s { fired = set a.agent_id key s.fired } in
    if not (w.takes a.agent_id)
    then (marked, false)
    else let logged = record marked { claims = s.claims ++ c ∷ [] } in
      if w.busy a.agent_id
      then (logged, true)
      else if w.launches a.agent_id
      then (record logged { starts = s.starts ++ c ∷ [] }, true)
      else (logged, true)

-- The body of the loop over the agents.
unfoldable pub consider : World → LocalDate → Scheduler → ScheduledAgent → Scheduler × Bool
consider w at s a = elim (expr_for s.compiled a.schedule) [
  | none ↦ (s, true)
  | some (expr, compiled) ↦
      let t = record s { compiled = compiled } in
      if not (cron_matches expr at.minute)
      then (t, true)
      else if has_fired s.fired a.agent_id (minute_key at)
      then (t, true)
      else claim w t a (minute_key at)
]

unfoldable pub over_agents : World → LocalDate → List ScheduledAgent → Scheduler → Scheduler
over_agents w at [] s = s
over_agents w at (a ∷ agents) s =
    let (t, goes_on) = consider w at s a in
    let rest = over_agents w at agents t in if goes_on then rest else t

unfoldable pub tick : World → LocalDate → Scheduler → Scheduler
tick w at s = over_agents w at w.agents s

-- `diagnostics`: the last minute of each agent.
unfoldable pub diagnostics : World → Scheduler → List (Text × Text × Option Text)
diagnostics w s =
    map (λ (a : ScheduledAgent). (a.agent_id, a.schedule, get a.agent_id s.fired)) w.agents
