-- ===== src/Events/Projections/Closing.antt =====
-- Each row that boot appends (kernel.ts, crash recovery) closes one thing that events/projections.ts finds open.
use mr_robot.Common.{
  ℕ, ◌≡◌, refl, ap, ◌∙◌, inl, inr, Bool, false, not, ◌&&◌, Option, none, some, is_some, List, [],
  ◌∷◌, arith, Option-cases,
}
use mr_robot.Common.Text.{Text, text, ◌==◌}
use mr_robot.Common.Map.{Map, text_eq, get, get-set, get-delete}
use mr_robot.Events.Canonical.{Json, Fields, str, obj, undef}
use mr_robot.Events.Chain.{EventRow}
use mr_robot.Events.Store.{AppendInput}
use mr_robot.Events.Projections.{
  OpenRun, UnresolvedApproval, UnreleasedHold, DanglingDelegation, Scan, amend, parse, or_blank,
  field_at, string_at, number_at,
}
use mr_robot.Events.Projections.Replay.{
  on_finished, on_result, on_resolved, on_abandoned, on_type, step, add_cost,
}
use mr_robot.Events.Projections.Recover.{close_orphan, close_delegation, close_approval, close_hold}

-- The value that an appended payload has under a key.
abbrev pub given : Text → Json → Json
given key (obj fs) = field_at key fs
given key _ = undef

-- The store took the append: the row has its type and its run, and its payload parses to an object that has
-- under every key the value that was given. Canonical JSON puts the keys in another order; redaction is taken
-- to have changed no value.
pub record Recorded (json_parse : Text → Option Json) (input : AppendInput) (row : EventRow)
    : Type 0 where
  pub same_type : row.type ≡ input.type
  pub same_run : row.run_id ≡ input.run_id
  pub same_payload :
      (key : Text) → field_at key (parse json_parse row.payload) ≡ given key input.payload

unfoldable pub AllRecorded : (Text → Option Json) → List AppendInput → List EventRow → Type 0
AllRecorded json_parse [] [] = Unit
AllRecorded json_parse [] (row ∷ rows) = ⊥
AllRecorded json_parse (i ∷ inputs) [] = ⊥
AllRecorded json_parse (i ∷ inputs) (row ∷ rows) =
    Recorded json_parse i row × AllRecorded json_parse inputs rows

-- What a row closes, by kind and id.
pub data Closed : Type 0 where
  a_run a_delegation an_approval a_hold : Text → Closed

abbrev pub same : Closed → Closed → Bool
same (a_run k) (a_run j) = k == j
same (a_delegation k) (a_delegation j) = k == j
same (an_approval k) (an_approval j) = k == j
same (a_hold k) (a_hold j) = k == j
same _ _ = false

abbrev pub open_in : Scan → Closed → Bool
open_in s (a_run k) = is_some (get k s.opened)
open_in s (a_delegation k) = is_some (get k s.admitted)
open_in s (an_approval k) = is_some (get k s.approvals)
open_in s (a_hold k) = is_some (get k s.holds)

pub data Item : Type 0 where
  orphan : OpenRun → Item
  delegation : DanglingDelegation → Item
  approval : UnresolvedApproval → Item
  hold : UnreleasedHold → Item

abbrev pub input_of : (Text → Text → ℕ) → Item → AppendInput
input_of duration (orphan r) = close_orphan duration r
input_of duration (delegation d) = close_delegation d
input_of duration (approval a) = close_approval a
input_of duration (hold h) = close_hold h

abbrev pub target : Item → Closed
target (orphan r) = a_run r.run_id
target (delegation d) = a_delegation d.child_run_id
target (approval a) = an_approval a.approval_id
target (hold h) = a_hold h.hold_id

pub is_some-amend :
    (k : Text) (id : Option Text) (f : OpenRun → OpenRun) (m : Map Text OpenRun)
    → is_some (get k (amend id f m)) ≡ is_some (get k m)
unfolding amend
is_some-amend k none f m = refl
is_some-amend k (some id) f m = elim (Option-cases (get id m)) [
  | inl missing ↦ rw (missing, amend)
  | inr (run, found) ↦ ground (arith, get-set id k (f run) m, text_eq.beq_iff id k)
]

string_given :
    (p : Fields) (key fallback id : Text) → field_at key p ≡ str id → string_at p key fallback ≡ id
unfolding string_at
string_given p key fallback id e = ground (arith, e)

amend-open_in :
    (s : Scan) (id : Option Text) (f : OpenRun → OpenRun) (c : Closed)
    → open_in (record s { opened = amend id f s.opened }) c ≡ open_in s c
amend-open_in s id f (a_run k) = is_some-amend k id f s.opened
amend-open_in s id f (a_delegation k) = refl
amend-open_in s id f (an_approval k) = refl
amend-open_in s id f (a_hold k) = refl

finished_closes :
    (s : Scan) (row : EventRow) (p : Fields) (id : Text)
    → string_at p (text "runId") (or_blank row.run_id) ≡ id
    → (c : Closed)
    → open_in (on_type (text "run.finished") s row p) c ≡ (open_in s c && not (same (a_run id) c))
unfolding on_type on_finished ◌==◌
finished_closes s row p id is (a_run k) =
    ground (arith, is, get-delete (string_at p (text "runId") (or_blank row.run_id)) k s.opened)
finished_closes s row p id is (a_delegation k) = ground arith
finished_closes s row p id is (an_approval k) = ground arith
finished_closes s row p id is (a_hold k) = ground arith

result_closes :
    (s : Scan) (row : EventRow) (p : Fields) (id : Text)
    → string_at p (text "childRunId") [] ≡ id
    → (c : Closed)
    → open_in (on_type (text "delegation.result") s row p) c
      ≡ (open_in s c && not (same (a_delegation id) c))
unfolding on_type on_result ◌==◌
result_closes s row p id is (a_run k) =
    ground
      (arith, is_some-amend k row.run_id (add_cost (number_at p (text "costMicroUsd"))) s.opened)
result_closes s row p id is (a_delegation k) =
    ground (arith, is, get-delete (string_at p (text "childRunId") []) k s.admitted)
result_closes s row p id is (an_approval k) = ground arith
result_closes s row p id is (a_hold k) = ground arith

resolved_closes :
    (s : Scan) (row : EventRow) (p : Fields) (id : Text)
    → string_at p (text "approvalId") [] ≡ id
    → (c : Closed)
    → open_in (on_type (text "approval.resolved") s row p) c
      ≡ (open_in s c && not (same (an_approval id) c))
unfolding on_type on_resolved ◌==◌
resolved_closes s row p id is (an_approval k) =
    ground (arith, is, get-delete (string_at p (text "approvalId") []) k s.approvals)
resolved_closes s row p id is (a_run k) = ground arith
resolved_closes s row p id is (a_delegation k) = ground arith
resolved_closes s row p id is (a_hold k) = ground arith

abandoned_closes :
    (s : Scan) (row : EventRow) (p : Fields) (id : Text)
    → string_at p (text "holdId") [] ≡ id
    → (c : Closed)
    → open_in (on_type (text "quarantine.abandoned") s row p) c
      ≡ (open_in s c && not (same (a_hold id) c))
unfolding on_type on_abandoned ◌==◌
abandoned_closes s row p id is (a_hold k) =
    ground (arith, is, get-delete (string_at p (text "holdId") []) k s.holds)
abandoned_closes s row p id is (a_run k) = ground arith
abandoned_closes s row p id is (a_delegation k) = ground arith
abandoned_closes s row p id is (an_approval k) = ground arith

pub step_closes :
    (json_parse : Text → Option Json) (duration : Text → Text → ℕ) (s : Scan) (item : Item)
    (row : EventRow)
    → Recorded json_parse (input_of duration item) row
    → (c : Closed) → open_in (step json_parse s row) c ≡ (open_in s c && not (same (target item) c))
unfolding step close_orphan close_delegation close_approval close_hold field_at ◌==◌
step_closes json_parse duration s (orphan r) row w c =
    rw (w.same_type, step)
      (finished_closes _ _ _ r.run_id (string_given _ _ _ r.run_id (w.same_payload (text "runId")))
          c
        ∙ ap (λ b. b && not (same (a_run r.run_id) c)) (amend-open_in s row.run_id _ c))
step_closes json_parse duration s (delegation d) row w c =
    rw (w.same_type, step)
      (result_closes _ _ _ d.child_run_id
          (string_given _ _ _ d.child_run_id (w.same_payload (text "childRunId"))) c
        ∙ ap (λ b. b && not (same (a_delegation d.child_run_id) c))
            (amend-open_in s row.run_id _ c))
step_closes json_parse duration s (approval a) row w c =
    rw (w.same_type, step)
      (resolved_closes _ _ _ a.approval_id
          (string_given _ _ _ a.approval_id (w.same_payload (text "approvalId"))) c
        ∙ ap (λ b. b && not (same (an_approval a.approval_id) c)) (amend-open_in s row.run_id _ c))
step_closes json_parse duration s (hold h) row w c =
    rw (w.same_type, step)
      (abandoned_closes _ _ _ h.hold_id
          (string_given _ _ _ h.hold_id (w.same_payload (text "holdId"))) c
        ∙ ap (λ b. b && not (same (a_hold h.hold_id) c)) (amend-open_in s row.run_id _ c))
