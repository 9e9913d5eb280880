-- ===== src/Events/Store/Query.antt =====
-- `query` of events/store.ts, over the rows of the table.
use mr_robot.Common.{
  ℕ, zero, suc, ◌≡◌, Bool, true, false, ◌&&◌, Option, none, some, inl, inr, List, [], ◌∷◌, take,
  filter, leb, All, Bool-cases,
}
use mr_robot.Common.Sort.{insert_by, sort_by}
use mr_robot.Common.Text.{Text, ◌==◌}
use mr_robot.Events.Chain.{EventRow}

-- The clause of one filter: a filter that is left out asks nothing, and a null run is no run.
unfoldable pub asked : Option Text → Option Text → Bool
asked none value = true
asked (some want) none = false
asked (some want) (some value) = value == want

unfoldable pub matches : Option Text → Option Text → EventRow → Bool
matches type run_id row = asked type (some row.type) && asked run_id row.run_id

unfoldable pub query : Option Text → Option Text → Option ℕ → List EventRow → List EventRow
query type run_id limit rows =
    let found = sort_by (λ (r : EventRow). r.seq) (filter (matches type run_id) rows) in
    elim limit [ none ↦ found | some n ↦ take n found ]

module _ (P : EventRow → Type 0) where
  All-insert_by :
      (row : EventRow) (rows : List EventRow)
      → P row
      → All P rows
      → All P (insert_by (λ (r : EventRow). r.seq) row rows)
  unfolding insert_by
  All-insert_by row [] p ps = (p, tt)
  All-insert_by row (r ∷ rows) p ps = elim (Bool-cases (leb row.seq r.seq)) [
    | inl first ↦ rw first (p, ps)
    | inr later ↦ rw later (ps.0, All-insert_by row rows p ps.1)
  ]

  All-sort_by : (rows : List EventRow) → All P rows → All P (sort_by (λ (r : EventRow). r.seq) rows)
  unfolding sort_by
  All-sort_by [] ps = tt
  All-sort_by (r ∷ rows) ps =
      All-insert_by r (sort_by (λ (x : EventRow). x.seq) rows) ps.0 (All-sort_by rows ps.1)

  All-take : (n : ℕ) (rows : List EventRow) → All P rows → All P (take n rows)
  All-take zero rows ps = tt
  All-take (suc n) [] ps = tt
  All-take (suc n) (r ∷ rows) ps = (ps.0, All-take n rows ps.1)

All-filter : (p : EventRow → Bool) (rows : List EventRow) → All (λ r. p r ≡ true) (filter p rows)
unfolding filter
All-filter p [] = tt
All-filter p (r ∷ rows) = elim (Bool-cases (p r)) [
  | inl kept ↦ rw kept (kept, All-filter p rows)
  | inr refused ↦ rw refused (All-filter p rows)
]

-- Every row that a query gives is one that was asked for, whatever the limit.
pub query_gives_matches :
    (type run_id : Option Text) (limit : Option ℕ) (rows : List EventRow)
    → All (λ r. matches type run_id r ≡ true) (query type run_id limit rows)
unfolding query
query_gives_matches type run_id none rows =
    All-sort_by (λ r. matches type run_id r ≡ true) (filter (matches type run_id) rows)
      (All-filter (matches type run_id) rows)
query_gives_matches type run_id (some n) rows =
    All-take (λ r. matches type run_id r ≡ true) n
      (sort_by (λ (r : EventRow). r.seq) (filter (matches type run_id) rows))
      (All-sort_by (λ r. matches type run_id r ≡ true) (filter (matches type run_id) rows)
        (All-filter (matches type run_id) rows))
