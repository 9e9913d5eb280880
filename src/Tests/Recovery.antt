-- ===== src/Tests/Recovery.antt =====
-- Crash recovery at a concrete log.
use mr_robot.Common.{
  ℕ, ◌≡◌, refl, true, Option, some, List, [], ◌∷◌, ◌++◌, if◌then◌else◌, filter, arith, subst, inl,
  inr, false, Bool-cases,
}
use mr_robot.Common.Text.{Text, text, ◌==◌, eq_iff}
use mr_robot.Events.Canonical.{Json, Fields, str, int, obj, end, field}
use mr_robot.Common.Int.{pos}
use mr_robot.Events.Chain.{EventRow}
use mr_robot.Events.Projections.{
  OpenRun, is_clean, amend, field_at, number_at, or_blank, parse, seen_in, string_at, touch,
}
use mr_robot.Events.Projections.Replay.{
  project_recovery, add_cost, count_call, count_tool, dangle, on_abandoned, on_admitted,
  on_finished, on_held, on_released, on_requested, on_resolved, on_response, on_result, on_started,
  on_tool, on_type, report, result_for, result_status, scan, spent, step,
}
use mr_robot.Events.Projections.Recover.{
  close_orphan, closing, close_approval, close_delegation, close_hold, status_text, taint_text,
}
use mr_robot.Events.Projections.Closing.{AllRecorded, given}
use mr_robot.Events.Projections.Settled.{recovery_settles_log}
use mr_robot.Common.Sort.{insert_by, sort_by}
use mr_robot.Common.Map.{delete, get, has, set, values}

abbrev orphan : OpenRun
orphan = record {
  run_id = text "r";
  agent_id = some (text "ceo");
  started_at = text "t0";
  last_ts = text "t0";
  last_seq = 1;
  llm_calls = 0;
  tool_calls = 0;
  cost_micro_usd = 0;
}

abbrev no_time : Text → Text → ℕ
no_time a b = 0

-- The payload of the closing row, as canonical JSON orders its keys.
abbrev stored : Fields
stored = field (text "costMicroUsd") (int (pos 0)) (
    field (text "durationMs") (int (pos 0)) (
      field (text "llmCalls") (int (pos 0)) (
        field (text "reason") (str (text "orphaned by a kernel restart")) (
          field (text "runId") (str (text "r")) (
            field (text "schemaVersion") (int (pos 1)) (
              field (text "status") (str (text "error"))
                (field (text "toolCalls") (int (pos 0)) end)))))))

abbrev Agrees : Text → Type 0
Agrees key = field_at key stored ≡ given key (close_orphan no_time orphan).payload

at_key : (name key : Text) → Agrees name → ((name == key) ≡ false → Agrees key) → Agrees key
at_key name key here other = elim (Bool-cases (name == key)) [
  | inl same ↦ subst Agrees ((eq_iff name key).0 same) here
  | inr differs ↦ other differs
]

same_values : (key : Text) → Agrees key
unfolding field_at close_orphan ◌==◌
same_values key = at_key (text "costMicroUsd") key refl (λ not_costmicrousd.
    at_key (text "durationMs") key refl (λ not_durationms.
      at_key (text "llmCalls") key refl (λ not_llmcalls.
        at_key (text "reason") key refl (λ not_reason. at_key (text "runId") key refl (λ not_runid.
          at_key (text "schemaVersion") key refl (λ not_schemaversion.
            at_key (text "status") key refl (λ not_status.
              at_key (text "toolCalls") key refl (λ not_toolcalls. ground arith))))))))

abbrev json_parse : Text → Option Json
json_parse t =
    if t == text "s"
    then some (
        obj (field (text "runId") (str (text "r")) (field (text "taint") (str (text "clean")) end)))
    else some (obj stored)

abbrev row_of : ℕ → Text → Text → EventRow
row_of n type payload = record {
  content = record {
    seq = n;
    id = payload;
    ts = text "t0";
    type = type;
    run_id = some (text "r");
    agent_id = some (text "ceo");
    payload = payload;
    prev_hash = [];
  };
  hash = [];
}

abbrev crashed : List EventRow
crashed = row_of 1 (text "run.started") (text "s") ∷ []

abbrev closers : List EventRow
closers = row_of 2 (text "run.finished") (text "f") ∷ []

closers_recorded :
    AllRecorded json_parse (closing no_time (project_recovery json_parse crashed)) closers
unfolding AllRecorded closing project_recovery filter report sort_by values dangle scan step on_type
    ◌==◌ on_started string_at field_at parse set amend get insert_by delete has close_approval
    close_delegation close_hold close_orphan status_text taint_text add_cost count_call count_tool
    on_abandoned on_admitted on_finished on_held on_released on_requested on_resolved on_response
    on_result on_tool result_for result_status spent number_at or_blank seen_in touch
closers_recorded = (record { same_type = refl; same_run = refl; same_payload = same_values }, tt)

recovery_settles_log_example : is_clean (project_recovery json_parse (crashed ++ closers)) ≡ true
recovery_settles_log_example =
    recovery_settles_log json_parse no_time crashed closers closers_recorded
