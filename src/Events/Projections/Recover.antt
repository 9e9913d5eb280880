-- ===== src/Events/Projections/Recover.antt =====
-- kernel.ts, crash recovery: the rows that boot appends for what the projection finds open. The duration
-- of a run is a function of its two timestamps, as `Date.parse` is.
use mr_robot.Common.{ℕ, not, none, some, List, ◌++◌, map, filter}
use mr_robot.Common.Int.{pos}
use mr_robot.Common.Text.{Text, text}
use mr_robot.Common.Map.{text_eq, has}
use mr_robot.Events.Canonical.{str, int, obj, end, field}
use mr_robot.Events.Store.{AppendInput}
use mr_robot.Events.Projections.{
  OpenRun, UnresolvedApproval, UnreleasedHold, Status, status_ok, status_error, status_killed,
  status_denied, Taint, clean, tainted, DanglingDelegation, Recovery,
}

-- `closeOrphan`
unfoldable pub close_orphan : (Text → Text → ℕ) → OpenRun → AppendInput
close_orphan duration run = record {
  type = text "run.finished";
  run_id = some run.run_id;
  agent_id = run.agent_id;
  payload = obj (
      field (text "schemaVersion") (int (pos 1)) (
        field (text "runId") (str run.run_id) (
          field (text "status") (str (text "error")) (
            field (text "reason") (str (text "orphaned by a kernel restart")) (
              field (text "costMicroUsd") (int (pos run.cost_micro_usd)) (
                field (text "llmCalls") (int (pos run.llm_calls)) (
                  field (text "toolCalls") (int (pos run.tool_calls)) (
                    field (text "durationMs") (int (pos (duration run.last_ts run.started_at)))
                      end))))))));
}

unfoldable pub status_text : Status → Text
status_text status_ok = text "ok"
status_text status_error = text "error"
status_text status_killed = text "killed"
status_text status_denied = text "denied"

unfoldable pub taint_text : Taint → Text
taint_text clean = text "clean"
taint_text tainted = text "tainted"

unfoldable pub close_delegation : DanglingDelegation → AppendInput
close_delegation d = record {
  type = text "delegation.result";
  run_id = some d.parent_run_id;
  agent_id = none;
  payload = obj (
      field (text "schemaVersion") (int (pos 1)) (
        field (text "parentRunId") (str d.parent_run_id) (
          field (text "childRunId") (str d.child_run_id) (
            field (text "status") (str (status_text d.status)) (
              field (text "costMicroUsd") (int (pos d.cost_micro_usd))
                (field (text "taint") (str (taint_text d.taint)) end))))));
}

unfoldable pub close_approval : UnresolvedApproval → AppendInput
close_approval a = record {
  type = text "approval.resolved";
  run_id = a.run_id;
  agent_id = none;
  payload = obj (
      field (text "schemaVersion") (int (pos 1)) (
        field (text "approvalId") (str a.approval_id)
          (field (text "decision") (str (text "expired")) end)));
}

unfoldable pub close_hold : UnreleasedHold → AppendInput
close_hold h = record {
  type = text "quarantine.abandoned";
  run_id = h.run_id;
  agent_id = none;
  payload = obj (
      field (text "schemaVersion") (int (pos 1)) (
        field (text "holdId") (str h.hold_id) (
          field (text "reason")
            (str (text "the kernel restarted; held content lives in memory and did not survive"))
            end)));
}

-- The appends of boot in their order: the runs that are children, the results, the other runs.
unfoldable pub closing : (Text → Text → ℕ) → Recovery → List AppendInput
closing duration r =
    let is_child = λ (run : OpenRun).
      has run.run_id (map (λ (d : DanglingDelegation). d.child_run_id) r.dangling_delegations) in
    map (close_orphan duration) (filter is_child r.orphan_runs)
    ++ map close_delegation r.dangling_delegations
    ++ map (close_orphan duration) (filter (λ run. not (is_child run)) r.orphan_runs)
    ++ map close_approval r.unresolved_approvals
    ++ map close_hold r.unreleased_holds
