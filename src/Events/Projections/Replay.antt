-- ===== src/Events/Projections/Replay.antt =====
-- events/projections.ts: the loop over the rows, by the type of the row, and what it reports.
use mr_robot.Common.{ℕ, ◌+◌, ◌||◌, Option, none, some, List, [], ◌∷◌, if◌then◌else◌}
use mr_robot.Common.Text.{Text, text, ◌==◌}
use mr_robot.Common.Map.{Map, text_eq, get, set, delete, values, has}
use mr_robot.Common.Sort.{sort_by}
use mr_robot.Events.Canonical.{Json, Fields}
use mr_robot.Events.Chain.{EventRow}
use mr_robot.Events.Projections.{
  OpenRun, UnresolvedApproval, UnreleasedHold, Status, status_ok, status_error, status_killed,
  status_denied, clean, tainted, DanglingDelegation, Recovery, parse, number_at, string_at,
  or_blank, Admission, Scan, nothing, amend, seen_in, touch,
}

unfoldable pub on_started : Scan → EventRow → Fields → Scan
on_started s row p =
    let id = string_at p (text "runId") (or_blank row.run_id) in
    if id == [] then s else record s {
      opened =
          set id
            (record {
              run_id = id;
              agent_id = row.agent_id;
              started_at = row.ts;
              last_ts = row.ts;
              last_seq = row.seq;
              llm_calls = 0;
              tool_calls = 0;
              cost_micro_usd = 0;
            })
            s.opened;
      started_tainted =
          if string_at p (text "taint") [] == text "clean"
          then s.started_tainted
          else id ∷ s.started_tainted;
    }

unfoldable pub on_finished : Scan → EventRow → Fields → Scan
on_finished s row p =
    let id = string_at p (text "runId") (or_blank row.run_id) in
    record s {
      opened = delete id s.opened;
      finished =
          set id
            (record {
              status = string_at p (text "status") [];
              cost_micro_usd = number_at p (text "costMicroUsd");
            })
            s.finished;
    }

unfoldable pub on_admitted : Scan → EventRow → Fields → Scan
on_admitted s row p =
    let child = string_at p (text "childRunId") [] in
    if child == [] then s else record s {
      admitted =
          set child
            (record {
              parent_run_id = string_at p (text "parentRunId") (or_blank row.run_id);
              seq = row.seq;
            })
            s.admitted;
    }

unfoldable pub add_cost : ℕ → OpenRun → OpenRun
add_cost n run = record run { cost_micro_usd = run.cost_micro_usd + n }

unfoldable pub on_result : Scan → EventRow → Fields → Scan
on_result s row p = record s {
  admitted = delete (string_at p (text "childRunId") []) s.admitted;
  opened = amend row.run_id (add_cost (number_at p (text "costMicroUsd"))) s.opened;
}

unfoldable pub count_call : ℕ → OpenRun → OpenRun
count_call n run = record run {
  llm_calls = run.llm_calls + 1;
  cost_micro_usd = run.cost_micro_usd + n;
}

unfoldable pub on_response : Scan → EventRow → Fields → Scan
on_response s row p = record s {
  opened = amend row.run_id (count_call (number_at p (text "costMicroUsd"))) s.opened;
}

unfoldable pub count_tool : OpenRun → OpenRun
count_tool run = record run { tool_calls = run.tool_calls + 1 }

unfoldable pub on_tool : Scan → EventRow → Scan
on_tool s row = record s {
  opened = amend row.run_id count_tool s.opened;
  touched_untrusted = touch row.run_id s.touched_untrusted;
}

unfoldable pub on_requested : Scan → EventRow → Fields → Scan
on_requested s row p =
    let id = string_at p (text "approvalId") [] in
    if id == [] then s else record s {
      approvals =
          set id
            (record {
              approval_id = id;
              run_id = row.run_id;
              tool_ref = string_at p (text "toolRef") [];
              risk = string_at p (text "risk") [];
              requested_at = row.ts;
              expires_at = string_at p (text "expiresAt") [];
              seq = row.seq;
            })
            s.approvals;
    }

unfoldable pub on_resolved : Scan → Fields → Scan
on_resolved s p = record s { approvals = delete (string_at p (text "approvalId") []) s.approvals }

unfoldable pub on_held : Scan → EventRow → Fields → Scan
on_held s row p =
    let id = string_at p (text "holdId") [] in
    if id == [] then s else record s {
      holds =
          set id
            (record {
              hold_id = id;
              run_id = row.run_id;
              tool_ref = string_at p (text "toolRef") [];
              reason = string_at p (text "reason") [];
              held_at = row.ts;
              seq = row.seq;
            })
            s.holds;
    }

unfoldable pub on_abandoned : Scan → Fields → Scan
on_abandoned s p = record s { holds = delete (string_at p (text "holdId") []) s.holds }

unfoldable pub on_released : Scan → EventRow → Fields → Scan
on_released s row p = record s {
  touched_untrusted = touch row.run_id s.touched_untrusted;
  holds = delete (string_at p (text "holdId") []) s.holds;
}

-- `switch (row.type)`
unfoldable pub on_type : Text → Scan → EventRow → Fields → Scan
on_type type s row p =
    if type == text "run.started"
    then on_started s row p
    else if type == text "run.finished"
    then on_finished s row p
    else if type == text "delegation.admitted"
    then on_admitted s row p
    else if type == text "delegation.result"
    then on_result s row p
    else if type == text "llm.response"
    then on_response s row p
    else if type == text "tool.result"
    then on_tool s row
    else if type == text "approval.requested"
    then on_requested s row p
    else if type == text "approval.resolved"
    then on_resolved s p
    else if type == text "quarantine.held"
    then on_held s row p
    else if type == text "quarantine.released"
    then on_released s row p
    else if type == text "quarantine.abandoned"
    then on_abandoned s p
    else s

-- The body of the loop: first the counters of the row's run, then its type.
unfoldable pub step : (Text → Option Json) → Scan → EventRow → Scan
step json_parse s row =
    on_type row.type (record s { opened = amend row.run_id (seen_in row) s.opened }) row
      (parse json_parse row.payload)

unfoldable pub scan : (Text → Option Json) → Scan → List EventRow → Scan
scan json_parse s [] = s
scan json_parse s (row ∷ rows) = scan json_parse (step json_parse s row) rows

unfoldable pub result_status : Text → Status
result_status status =
    if status == text "ok"
    then status_ok
    else if status == text "killed"
    then status_killed
    else if status == text "denied"
    then status_denied
    else status_error

-- What the child spent, by its terminal row, or by its rows.
unfoldable pub spent : Scan → Text → ℕ
spent s child = elim (get child s.finished) [
  | some done ↦ done.cost_micro_usd
  | none ↦ elim (get child s.opened) [ none ↦ 0 | some run ↦ run.cost_micro_usd ]
]

unfoldable pub result_for : Scan → Text → Admission → DanglingDelegation
result_for s child a = record {
  parent_run_id = a.parent_run_id;
  child_run_id = child;
  status = elim (get child s.finished) [
    | none ↦ status_error
    | some done ↦ result_status done.status
  ];
  cost_micro_usd = spent s child;
  taint = if has child s.started_tainted || has child s.touched_untrusted then tainted else clean;
  seq = a.seq;
}

-- The loop over the admissions that are left; each puts the child's spend on the bill of its parent.
unfoldable pub dangle : Scan → Map Text Admission → List DanglingDelegation × Scan
dangle s [] = ([], s)
dangle s ((child, a) ∷ rest) =
    let d = result_for s child a in
    let (ds, t) =
      dangle
        (record s { opened = amend (some a.parent_run_id) (add_cost d.cost_micro_usd) s.opened })
        rest in
    (d ∷ ds, t)

unfoldable pub report : Scan → Recovery
report s =
    let (ds, t) = dangle s s.admitted in
    record {
      orphan_runs = sort_by (λ (r : OpenRun). r.last_seq) (values t.opened);
      unresolved_approvals = sort_by (λ (a : UnresolvedApproval). a.seq) (values t.approvals);
      unreleased_holds = sort_by (λ (h : UnreleasedHold). h.seq) (values t.holds);
      dangling_delegations = sort_by (λ (d : DanglingDelegation). d.seq) ds;
    }

unfoldable pub project_recovery : (Text → Option Json) → List EventRow → Recovery
project_recovery json_parse rows = report (scan json_parse nothing rows)
