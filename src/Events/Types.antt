-- ===== src/Events/Types.antt =====
-- events/types.ts: the closed list of event types. The payload schemas there are checked by zod, and
-- enter the store as the parameter `parse`.
use mr_robot.Common.{Bool, List, [], ◌∷◌}
use mr_robot.Common.Text.{Text, text}
use mr_robot.Events.Redact.{contains}

abbrev pub event_types : List Text
event_types =
    text "kernel.booted"
    ∷ text "kernel.shutdown"
    ∷ text "subsystem.state"
    ∷ text "chain.anchored"
    ∷ text "control.connected"
    ∷ text "control.rejected"
    ∷ text "hub.connected"
    ∷ text "hub.degraded"
    ∷ text "hub.tools.classified"
    ∷ text "sandbox.degraded"
    ∷ text "router.degraded"
    ∷ text "secrets.degraded"
    ∷ text "goals.degraded"
    ∷ text "agent.registered"
    ∷ text "agent.spawned"
    ∷ text "agent.spawn.rejected"
    ∷ text "agent.promotion.requested"
    ∷ text "agent.promoted"
    ∷ text "agent.archived"
    ∷ text "run.scheduled"
    ∷ text "run.queued"
    ∷ text "run.started"
    ∷ text "run.parked"
    ∷ text "run.resumed"
    ∷ text "run.finished"
    ∷ text "llm.request"
    ∷ text "llm.response"
    ∷ text "tool.gate"
    ∷ text "tool.call"
    ∷ text "tool.result"
    ∷ text "approval.requested"
    ∷ text "approval.resolved"
    ∷ text "quarantine.held"
    ∷ text "quarantine.released"
    ∷ text "quarantine.abandoned"
    ∷ text "sandbox.started"
    ∷ text "sandbox.killed"
    ∷ text "secret.accessed"
    ∷ text "probe.recorded"
    ∷ text "plan.adopted"
    ∷ text "goal.created"
    ∷ text "goal.status"
    ∷ text "goal.unconfirmed"
    ∷ text "delegation.admitted"
    ∷ text "delegation.result"
    ∷ text "delegation.refused"
    ∷ []

unfoldable pub is_event_type : Text → Bool
unfolding contains
is_event_type t = contains event_types t
