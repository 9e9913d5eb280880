-- ===== src/Policy/Approvals/Rebuild.antt =====
-- rebuildFromLog of policy/approvals.ts: the requests that were unanswered when the process stopped.
use mr_robot.Common.{◌≡◌, true, Option, List, [], ◌++◌, arith, ℕ}
use mr_robot.Common.Text.{Text}
use mr_robot.Events.Canonical.{Json}
use mr_robot.Events.Chain.{EventRow}
use mr_robot.Events.Projections.{UnresolvedApproval, Recovery, is_empty, is_clean}
use mr_robot.Events.Projections.Replay.{project_recovery}
use mr_robot.Events.Projections.Recover.{closing}
use mr_robot.Events.Projections.Closing.{AllRecorded}
use mr_robot.Events.Projections.Settled.{recovery_settles_log}

unfoldable pub rebuild_from_log : (Text → Option Json) → List EventRow → List UnresolvedApproval
rebuild_from_log json_parse rows = (project_recovery json_parse rows).unresolved_approvals

clean_unresolved : (r : Recovery) → is_clean r ≡ true → r.unresolved_approvals ≡ []
unfolding is_clean is_empty
clean_unresolved r e = ground (arith, e)

-- Once boot has closed what it found, no request is left to answer.
rebuild_after_recovery :
    (json_parse : Text → Option Json) (duration : Text → Text → ℕ) (rows closers : List EventRow)
    → AllRecorded json_parse (closing duration (project_recovery json_parse rows)) closers
    → rebuild_from_log json_parse (rows ++ closers) ≡ []
unfolding rebuild_from_log
rebuild_after_recovery json_parse duration rows closers w =
    clean_unresolved (project_recovery json_parse (rows ++ closers))
      (recovery_settles_log json_parse duration rows closers w)
