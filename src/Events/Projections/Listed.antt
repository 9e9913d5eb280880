-- ===== src/Events/Projections/Listed.antt =====
-- What the rows that boot appends are for (kernel.ts, crash recovery), by kind and id, and what the loop
-- over the admissions of events/projections.ts leaves of a scan.
use mathlib.Core.List.{map-append, map-map}
use mr_robot.Common.{
  ℕ, ◌≡◌, refl, ap, ◌∙◌, Bool, false, not, ◌&&◌, ◌||◌, Option, some, is_some, List, [], ◌∷◌, ◌++◌,
  map, filter, arith,
}
use mr_robot.Common.Text.{Text, ◌==◌}
use mr_robot.Common.Map.{Map, text_eq, get, has, keys}
use mr_robot.Events.Canonical.{Json}
use mr_robot.Events.Chain.{EventRow}
use mr_robot.Events.Projections.{OpenRun, DanglingDelegation, Recovery, Scan, Admission, amend}
use mr_robot.Events.Projections.Replay.{add_cost, step, scan, result_for, dangle}
use mr_robot.Events.Projections.Recover.{closing}
use mr_robot.Events.Projections.Closing.{
  AllRecorded, Closed, same, open_in, Item, orphan, delegation, approval, hold, input_of, target,
  is_some-amend, step_closes,
}

pub closes : Closed → List Item → Bool
closes c [] = false
closes c (i ∷ items) = same (target i) c || closes c items

pub scan-closes :
    (json_parse : Text → Option Json) (duration : Text → Text → ℕ) (items : List Item)
    (rows : List EventRow) (s : Scan)
    → AllRecorded json_parse (map (input_of duration) items) rows
    → (c : Closed) → open_in (scan json_parse s rows) c ≡ (open_in s c && not (closes c items))
unfolding scan closes AllRecorded
scan-closes json_parse duration [] [] s w c = ground arith
scan-closes json_parse duration [] (row ∷ rows) s w c = elim w [ ]
scan-closes json_parse duration (i ∷ items) [] s w c = elim w [ ]
scan-closes json_parse duration (i ∷ items) (row ∷ rows) s w c =
    let first = step_closes json_parse duration s i row w.0 c in
    let rest = scan-closes json_parse duration items rows (step json_parse s row) w.1 c in
    ground (arith, first, rest)

pub closes-append :
    (c : Closed) (xs ys : List Item) → closes c (xs ++ ys) ≡ (closes c xs || closes c ys)
unfolding closes
closes-append c [] ys = refl
closes-append c (x ∷ xs) ys = ground (arith, closes-append c xs ys)

abbrev pub is_child : Recovery → OpenRun → Bool
is_child r run =
    has run.run_id (map (λ (d : DanglingDelegation). d.child_run_id) r.dangling_delegations)

unfoldable pub items_of : Recovery → List Item
items_of r =
    map orphan (filter (is_child r) r.orphan_runs)
    ++ map delegation r.dangling_delegations
    ++ map orphan (filter (λ run. not (is_child r run)) r.orphan_runs)
    ++ map approval r.unresolved_approvals
    ++ map hold r.unreleased_holds

pub closing-items_of :
    (duration : Text → Text → ℕ) (r : Recovery)
    → closing duration r ≡ map (input_of duration) (items_of r)
unfolding closing items_of
closing-items_of duration r = simp (map-append, map-map)

-- Closing some things by their ids.
pub closes_ids {ℓ} :
    {A : Type ℓ} (item : A → Item) (on : Text → Closed) (id : A → Text) (k : Text) (xs : List A)
    → ((x : A) → same (target (item x)) (on k) ≡ (id x == k))
    → closes (on k) (map item xs) ≡ has k (map id xs)
unfolding closes has
closes_ids item on id k [] h = refl
closes_ids item on id k (x ∷ xs) h = ground (arith, h x, closes_ids item on id k xs h)

pub has-filter {ℓ} :
    {A : Type ℓ} (p : A → Bool) (id : A → Text) (k : Text) (xs : List A)
    → (has k (map id (filter p xs)) || has k (map id (filter (λ x. not (p x)) xs)))
      ≡ has k (map id xs)
unfolding filter has
has-filter p id k [] = refl
has-filter p id k (x ∷ xs) = ground (arith, has-filter p id k xs)

pub dangle-runs :
    (s : Scan) (left : Map Text Admission) (k : Text)
    → is_some (get k (dangle s left).1.opened) ≡ is_some (get k s.opened)
unfolding dangle
dangle-runs s [] k = refl
dangle-runs s ((child, a) ∷ rest) k =
    dangle-runs
      (record s {
        opened =
            amend (some a.parent_run_id) (add_cost (result_for s child a).cost_micro_usd) s.opened;
      })
      rest k
    ∙ is_some-amend k (some a.parent_run_id) (add_cost (result_for s child a).cost_micro_usd)
        s.opened

pub dangle-children :
    (s : Scan) (left : Map Text Admission)
    → map (λ (d : DanglingDelegation). d.child_run_id) (dangle s left).0 ≡ keys left
unfolding dangle result_for
dangle-children s [] = refl
dangle-children s ((child, a) ∷ rest) =
    ap (λ l. child ∷ l)
      (dangle-children
        (record s {
          opened =
              amend (some a.parent_run_id) (add_cost (result_for s child a).cost_micro_usd)
                s.opened;
        })
        rest)

pub dangle-rest :
    (s : Scan) (left : Map Text Admission)
    → ((dangle s left).1.approvals ≡ s.approvals) × ((dangle s left).1.holds ≡ s.holds)
unfolding dangle
dangle-rest s [] = (refl, refl)
dangle-rest s ((child, a) ∷ rest) =
    dangle-rest
      (record s {
        opened =
            amend (some a.parent_run_id) (add_cost (result_for s child a).cost_micro_usd) s.opened;
      })
      rest

abbrev pub orphan_ids : Recovery → List Text
orphan_ids r = map (λ (run : OpenRun). run.run_id) r.orphan_runs
