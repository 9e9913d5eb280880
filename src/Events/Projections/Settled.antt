-- ===== src/Events/Projections/Settled.antt =====
-- Crash recovery (kernel.ts, events/projections.ts) leaves nothing open.
use mr_robot.Common.{
  ℕ, ◌≡◌, refl, ap, ◌∙◌, subst, inl, inr, true, false, not, Option, none, some, is_some, List, [],
  ◌∷◌, ◌++◌, map, filter, arith, Option-cases,
}
use mr_robot.Common.Text.{Text}
use mr_robot.Common.Map.{Map, text_eq, get, values, has, keys, get-keys, missing_all, has-values}
use mr_robot.Common.Sort.{sort_by, has-sort_by}
use mr_robot.Events.Canonical.{Json}
use mr_robot.Events.Chain.{EventRow}
use mr_robot.Events.Projections.{
  OpenRun, UnresolvedApproval, UnreleasedHold, DanglingDelegation, Recovery, Scan, nothing,
  is_clean, is_empty,
}
use mr_robot.Events.Projections.Replay.{step, scan, dangle, report, project_recovery}
use mr_robot.Events.Projections.Recover.{closing}
use mr_robot.Events.Projections.Filed.{Filed, FiledBy, scan-Filed, nothing-Filed, dangle-Filed}
use mr_robot.Events.Projections.Closing.{
  AllRecorded, Closed, a_run, a_delegation, an_approval, a_hold, open_in, orphan, delegation,
  approval, hold,
}
use mr_robot.Events.Projections.Listed.{
  closes, scan-closes, closes-append, is_child, items_of, closing-items_of, closes_ids, has-filter,
  dangle-runs, dangle-children, dangle-rest, orphan_ids,
}

covers_run :
    (r : Recovery) (k : Text) → has k (orphan_ids r) ≡ true → closes (a_run k) (items_of r) ≡ true
unfolding items_of
covers_run r k h =
    let children =
      closes_ids orphan a_run (λ (x : OpenRun). x.run_id) k (filter (is_child r) r.orphan_runs)
        (λ x. refl) in
    let others =
      closes_ids orphan a_run (λ (x : OpenRun). x.run_id) k
        (filter (λ run. not (is_child r run)) r.orphan_runs) (λ x. refl) in
    simp (closes-append) (
      ground (
        arith,
        children,
        others,
        has-filter (is_child r) (λ (x : OpenRun). x.run_id) k r.orphan_runs,
      ))

covers_delegation :
    (r : Recovery) (k : Text)
    → has k (map (λ (d : DanglingDelegation). d.child_run_id) r.dangling_delegations) ≡ true
    → closes (a_delegation k) (items_of r) ≡ true
unfolding items_of
covers_delegation r k h =
    let found =
      closes_ids delegation a_delegation (λ (d : DanglingDelegation). d.child_run_id) k
        r.dangling_delegations (λ x. refl) in
    simp (closes-append) (ground (arith, found))

covers_approval :
    (r : Recovery) (k : Text)
    → has k (map (λ (a : UnresolvedApproval). a.approval_id) r.unresolved_approvals) ≡ true
    → closes (an_approval k) (items_of r) ≡ true
unfolding items_of
covers_approval r k h =
    let found =
      closes_ids approval an_approval (λ (a : UnresolvedApproval). a.approval_id) k
        r.unresolved_approvals (λ x. refl) in
    simp (closes-append) (ground (arith, found))

covers_hold :
    (r : Recovery) (k : Text)
    → has k (map (λ (h : UnreleasedHold). h.hold_id) r.unreleased_holds) ≡ true
    → closes (a_hold k) (items_of r) ≡ true
unfolding items_of
covers_hold r k h =
    let found =
      closes_ids hold a_hold (λ (x : UnreleasedHold). x.hold_id) k r.unreleased_holds (λ x. refl) in
    simp (closes-append) (ground (arith, found))

listed : {V : Type 0} (k : Text) (m : Map Text V) → is_some (get k m) ≡ true → has k (keys m) ≡ true
listed k m o = elim (get-keys k m) [ inl missing ↦ ground arith | inr there ↦ there ]

listed_value :
    {V : Type 0} (id : V → Text) (k : Text) (m : Map Text V)
    → FiledBy id m
    → is_some (get k m) ≡ true
    → has k (map id (values m)) ≡ true
listed_value id k m f o = elim (Option-cases (get k m)) [
  | inl missing ↦ ground arith
  | inr (v, found) ↦ has-values id k v m found (f k v found)
]

gone {ℓ} : {A : Type ℓ} (o : Option A) → is_some o ≡ false → o ≡ none
gone none h = refl
gone (some a) h = ground arith

-- Whatever is open is among what boot closes.
covered :
    (s : Scan) → Filed s → (c : Closed) → open_in s c ≡ true → closes c (items_of (report s)) ≡ true
unfolding report
covered s f (a_run k) o =
    let runs = (dangle s s.admitted).1.opened in
    elim (Option-cases (get k runs)) [
      | inl missing ↦ ground (arith, dangle-runs s s.admitted k)
      | inr (run, found) ↦ covers_run (report s) k (
          has-sort_by (λ (r : OpenRun). r.last_seq) (λ (r : OpenRun). r.run_id) k (values runs)
          ∙ has-values (λ (r : OpenRun). r.run_id) k run runs found
              ((dangle-Filed s s.admitted f).runs k run found))
    ]
covered s f (a_delegation k) o = covers_delegation (report s) k (
    has-sort_by (λ (d : DanglingDelegation). d.seq) (λ (d : DanglingDelegation). d.child_run_id) k
      (dangle s s.admitted).0
    ∙ ap (has k) (dangle-children s s.admitted)
    ∙ listed k s.admitted o)
covered s f (an_approval k) o =
    let found =
      listed_value (λ (a : UnresolvedApproval). a.approval_id) k s.approvals f.approvals o in
    covers_approval (report s) k (
      has-sort_by (λ (a : UnresolvedApproval). a.seq) (λ (a : UnresolvedApproval). a.approval_id) k
        (values (dangle s s.admitted).1.approvals)
      ∙ rw (dangle-rest s s.admitted).0 found)
covered s f (a_hold k) o =
    let found = listed_value (λ (h : UnreleasedHold). h.hold_id) k s.holds f.holds o in
    covers_hold (report s) k (
      has-sort_by (λ (h : UnreleasedHold). h.seq) (λ (h : UnreleasedHold). h.hold_id) k
        (values (dangle s s.admitted).1.holds)
      ∙ rw (dangle-rest s s.admitted).1 found)

empty_clean : (s : Scan) → ((c : Closed) → open_in s c ≡ false) → is_clean (report s) ≡ true
unfolding report is_clean is_empty dangle values sort_by
empty_clean s h = rw (
  missing_all s.admitted (λ k. gone (get k s.admitted) (h (a_delegation k))),
  missing_all s.opened (λ k. gone (get k s.opened) (h (a_run k))),
  missing_all s.approvals (λ k. gone (get k s.approvals) (h (an_approval k))),
  missing_all s.holds (λ k. gone (get k s.holds) (h (a_hold k))),
)

scan-append :
    (json_parse : Text → Option Json) (s : Scan) (xs ys : List EventRow)
    → scan json_parse s (xs ++ ys) ≡ scan json_parse (scan json_parse s xs) ys
unfolding scan
scan-append json_parse s [] ys = refl
scan-append json_parse s (x ∷ xs) ys = scan-append json_parse (step json_parse s x) xs ys

-- A restart orphans nothing. Let a log go on with one row for each entry that boot appends for it, in their
-- order, with the entry's type and run and under each key of the payload the entry's value. The projection of
-- the longer log is then clean, whatever the log held: every run has reached an end, every approval a
-- decision, every hold an end and every admission a result, and a second restart finds nothing to do.
pub recovery_settles_log :
    (json_parse : Text → Option Json) (duration : Text → Text → ℕ) (rows closers : List EventRow)
    → AllRecorded json_parse (closing duration (project_recovery json_parse rows)) closers
    → is_clean (project_recovery json_parse (rows ++ closers)) ≡ true
unfolding project_recovery
recovery_settles_log json_parse duration rows closers w =
    let s = scan json_parse nothing rows in
    let f = scan-Filed json_parse nothing rows nothing-Filed in
    rw (scan-append json_parse nothing rows closers) (
      empty_clean (scan json_parse s closers) (λ c. ground (
        arith,
        scan-closes json_parse duration (items_of (report s)) closers s
            (subst (λ l. AllRecorded json_parse l closers) (closing-items_of duration (report s)) w)
            c,
        covered s f c,
      )))
