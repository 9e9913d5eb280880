-- ===== src/Events/Projections/Filed.antt =====
-- What the maps of events/projections.ts keep: everything stands under its own id.
use mr_robot.Common.{
  ◌≡◌, refl, ◌∙◌, inl, inr, Option, none, some, List, [], ◌∷◌, arith, if_both, Option-cases,
}
use mr_robot.Common.Text.{Text, text, ◌==◌}
use mr_robot.Common.Map.{Map, text_eq, get, set, delete, get-set, get-delete}
use mr_robot.Events.Canonical.{Json, Fields}
use mr_robot.Events.Chain.{EventRow}
use mr_robot.Events.Projections.{
  OpenRun, UnresolvedApproval, UnreleasedHold, Scan, Admission, nothing, amend, seen_in, parse,
  string_at, or_blank,
}
use mr_robot.Events.Projections.Replay.{
  on_started, on_finished, on_admitted, add_cost, on_result, count_call, on_response, count_tool,
  on_tool, on_requested, on_resolved, on_held, on_abandoned, on_released, on_type, step, scan,
  dangle, result_for,
}

abbrev pub FiledBy : {V : Type 0} → (V → Text) → Map Text V → Type 0
FiledBy {V} id m = (k : Text) (v : V) → get k m ≡ some v → id v ≡ k

pub record Filed (s : Scan) : Type 0 where
  pub runs : FiledBy (λ (r : OpenRun). r.run_id) s.opened
  pub approvals : FiledBy (λ (a : UnresolvedApproval). a.approval_id) s.approvals
  pub holds : FiledBy (λ (h : UnreleasedHold). h.hold_id) s.holds

module _ {V : Type 0} (id : V → Text) where
  set-FiledBy :
      (k : Text) (v : V) (m : Map Text V) → id v ≡ k → FiledBy id m → FiledBy id (set k v m)
  set-FiledBy k v m is f j w g = ground (arith, get-set k j v m, text_eq.beq_iff k j, f j w)

  delete-FiledBy : (k : Text) (m : Map Text V) → FiledBy id m → FiledBy id (delete k m)
  delete-FiledBy k m f j w g = ground (arith, get-delete k j m, f j w)

amend-FiledBy :
    (k : Option Text) (f : OpenRun → OpenRun) (m : Map Text OpenRun)
    → ((r : OpenRun) → (f r).run_id ≡ r.run_id)
    → FiledBy (λ (r : OpenRun). r.run_id) m
    → FiledBy (λ (r : OpenRun). r.run_id) (amend k f m)
unfolding amend
amend-FiledBy none f m keeps filed = filed
amend-FiledBy (some k) f m keeps filed = elim (Option-cases (get k m)) [
  | inl missing ↦ rw (missing, amend) filed
  | inr (run, found) ↦
      rw (found, amend) (set-FiledBy _ k (f run) m (keeps run ∙ filed k run found) filed)
]

on_started-Filed : (s : Scan) (row : EventRow) (p : Fields) → Filed s → Filed (on_started s row p)
unfolding on_started
on_started-Filed s row p f =
    if_both Filed (string_at p (text "runId") (or_blank row.run_id) == []) f (record {
      runs = set-FiledBy _ _ _ s.opened refl f.runs;
      approvals = f.approvals;
      holds = f.holds;
    })

on_requested-Filed :
    (s : Scan) (row : EventRow) (p : Fields) → Filed s → Filed (on_requested s row p)
unfolding on_requested
on_requested-Filed s row p f = if_both Filed (string_at p (text "approvalId") [] == []) f (record {
  runs = f.runs;
  approvals = set-FiledBy _ _ _ s.approvals refl f.approvals;
  holds = f.holds;
})

on_held-Filed : (s : Scan) (row : EventRow) (p : Fields) → Filed s → Filed (on_held s row p)
unfolding on_held
on_held-Filed s row p f = if_both Filed (string_at p (text "holdId") [] == []) f (record {
  runs = f.runs;
  approvals = f.approvals;
  holds = set-FiledBy _ _ _ s.holds refl f.holds;
})

on_admitted-Filed : (s : Scan) (row : EventRow) (p : Fields) → Filed s → Filed (on_admitted s row p)
unfolding on_admitted
on_admitted-Filed s row p f =
    if_both Filed (string_at p (text "childRunId") [] == []) f
      (record { runs = f.runs; approvals = f.approvals; holds = f.holds })

-- The amendments and deletions of the other types of row.
on_type-Filed :
    (type : Text) (s : Scan) (row : EventRow) (p : Fields) → Filed s → Filed (on_type type s row p)
unfolding on_type on_finished on_result on_response on_tool on_resolved on_released on_abandoned
    add_cost count_call count_tool
on_type-Filed type s row p f =
    if_both Filed (type == text "run.started") (on_started-Filed s row p f) (
      if_both Filed (type == text "run.finished")
        (record {
          runs = delete-FiledBy _ _ s.opened f.runs;
          approvals = f.approvals;
          holds = f.holds;
        })
        (if_both Filed (type == text "delegation.admitted") (on_admitted-Filed s row p f) (
          if_both Filed (type == text "delegation.result")
            (record {
              runs = amend-FiledBy row.run_id _ s.opened (λ r. refl) f.runs;
              approvals = f.approvals;
              holds = f.holds;
            })
            (if_both Filed (type == text "llm.response")
              (record {
                runs = amend-FiledBy row.run_id _ s.opened (λ r. refl) f.runs;
                approvals = f.approvals;
                holds = f.holds;
              })
              (if_both Filed (type == text "tool.result")
                (record {
                  runs = amend-FiledBy row.run_id _ s.opened (λ r. refl) f.runs;
                  approvals = f.approvals;
                  holds = f.holds;
                })
                (if_both Filed (type == text "approval.requested") (on_requested-Filed s row p f) (
                  if_both Filed (type == text "approval.resolved")
                    (record {
                      runs = f.runs;
                      approvals = delete-FiledBy _ _ s.approvals f.approvals;
                      holds = f.holds;
                    })
                    (if_both Filed (type == text "quarantine.held") (on_held-Filed s row p f) (
                      if_both Filed (type == text "quarantine.released")
                        (record {
                          runs = f.runs;
                          approvals = f.approvals;
                          holds = delete-FiledBy _ _ s.holds f.holds;
                        })
                        (if_both Filed (type == text "quarantine.abandoned")
                          (record {
                            runs = f.runs;
                            approvals = f.approvals;
                            holds = delete-FiledBy _ _ s.holds f.holds;
                          })
                          f))))))))))

step-Filed :
    (json_parse : Text → Option Json) (s : Scan) (row : EventRow)
    → Filed s
    → Filed (step json_parse s row)
unfolding step seen_in
step-Filed json_parse s row f =
    on_type-Filed row.type (record s { opened = amend row.run_id (seen_in row) s.opened }) row
      (parse json_parse row.payload)
      (record {
        runs = amend-FiledBy row.run_id (seen_in row) s.opened (λ r. refl) f.runs;
        approvals = f.approvals;
        holds = f.holds;
      })

pub scan-Filed :
    (json_parse : Text → Option Json) (s : Scan) (rows : List EventRow)
    → Filed s
    → Filed (scan json_parse s rows)
unfolding scan
scan-Filed json_parse s [] f = f
scan-Filed json_parse s (row ∷ rows) f =
    scan-Filed json_parse (step json_parse s row) rows (step-Filed json_parse s row f)

pub nothing-Filed : Filed nothing
unfolding get
nothing-Filed = record {
  runs = λ k v g. ground arith;
  approvals = λ k v g. ground arith;
  holds = λ k v g. ground arith;
}

pub dangle-Filed : (s : Scan) (left : Map Text Admission) → Filed s → Filed (dangle s left).1
unfolding dangle add_cost
dangle-Filed s [] f = f
dangle-Filed s ((child, a) ∷ rest) f =
    dangle-Filed
      (record s {
        opened =
            amend (some a.parent_run_id) (add_cost (result_for s child a).cost_micro_usd) s.opened;
      })
      rest
      (record {
        runs =
            amend-FiledBy (some a.parent_run_id) (add_cost (result_for s child a).cost_micro_usd)
              s.opened (λ r. refl) f.runs;
        approvals = f.approvals;
        holds = f.holds;
      })
