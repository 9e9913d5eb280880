-- ===== src/Goals/Plan/Cycle.antt =====
-- The search for a cycle in goals/plan.ts: each walk keeps the meaning of its stack and marks.
use mr_robot.Common.{
  ℕ, zero, suc, ◌≤◌, ◌≡◌, refl, subst, ◌⊎◌, inl, inr, true, Option, none, some, List, [], ◌∷◌, ◌++◌,
  arith, Bool-cases,
}
use mathlib.Core.WellFounded.{Acc}
use mr_robot.Common.Text.{Text, ◌==◌, eq_iff, eq_refl}
use mr_robot.Common.Map.{Map, text_eq, get, set, has, has-snoc, get-set}
use mr_robot.Goals.Plan.{
  Mark, opened, closed, Found, exhausted, cycle, clear, deps_of, slice_from, each, close_id, walk,
}
use mr_robot.Goals.Plan.Chain.{
  Deps, Needs, Leads, Leads-on, slice-IsCycle, not_in_none, unmarked, unmarked-set, unmarked-fresh,
  Fits, Kept,
}

module _ (deps : Deps) (nodes : List Text) where
  Kept-onto :
      (stack : List Text) (marks wider : Map Text Mark) {Done More : Type 0} (found : Found)
      → unmarked nodes marks ≤ unmarked nodes wider
      → (Done → More)
      → Kept deps nodes stack marks Done found
      → Kept deps nodes stack wider More found
  Kept-onto stack marks wider exhausted fewer onto kept = kept
  Kept-onto stack marks wider (cycle path) fewer onto kept = kept
  Kept-onto stack marks wider (clear more) fewer onto kept =
      (kept.0, omega (arith, kept.1), onto kept.2)

  -- A loop keeps what each of its visits keeps.
  pub each-Kept :
      (visit : Text → Map Text Mark → Found) (stack : List Text) (bound : ℕ) (ds : List Text)
      → ((d : Text) (marks : Map Text Mark)
          → has d ds ≡ true
          → Fits deps stack marks
          → unmarked nodes marks ≤ bound
          → Kept deps nodes stack marks (Acc (Needs deps) d) (visit d marks))
      → (marks : Map Text Mark) → Fits deps stack marks
      → unmarked nodes marks ≤ bound
      → Kept deps nodes stack marks
          ((d : Text) → has d ds ≡ true → Acc (Needs deps) d)
          (each visit ds marks)
  unfolding each has
  each-Kept visit stack bound [] keeps marks fits few = (fits, omega arith, λ d at. ground arith)
  each-Kept visit stack bound (d ∷ ds) keeps marks fits few =
      next (visit d marks)
        (each-Kept visit stack bound ds
          (λ k m at. keeps k m (ground (arith, at, Bool-cases (d == k)))))
        (keeps d marks (ground (arith, eq_refl d)) fits few)
    where
      next :
          (found : Found)
          → ((more : Map Text Mark)
              → Fits deps stack more
              → unmarked nodes more ≤ bound
              → Kept deps nodes stack more
                  ((k : Text) → has k ds ≡ true → Acc (Needs deps) k)
                  (each visit ds more))
          → Kept deps nodes stack marks (Acc (Needs deps) d) found
          → Kept deps nodes stack marks
              ((k : Text) → has k (d ∷ ds) ≡ true → Acc (Needs deps) k)
              (elim found [
                | exhausted ↦ exhausted
                | cycle path ↦ cycle path
                | clear more ↦ each visit ds more
              ])
      next exhausted rest kept = kept
      next (cycle path) rest kept = kept
      next (clear more) rest kept =
          Kept-onto stack more marks (each visit ds more) kept.1
            (λ others k at. elim (Bool-cases (d == k)) [
              | inl same ↦ subst (Acc (Needs deps)) ((eq_iff d k).0 same) kept.2
              | inr other ↦ others k (ground (arith, at, other))
            ])
            (rest more kept.0 (omega (arith, kept.1)))

  -- Closing an id whose dependencies all end.
  close-Kept :
      (stack : List Text) (id : Text) (marks : Map Text Mark) (inner : Found)
      → Kept deps nodes
          (stack ++ id ∷ [])
          (set id opened marks)
          ((d : Text) → Needs deps d id → Acc (Needs deps) d)
          inner
      → Kept deps nodes stack marks (Acc (Needs deps) id) (close_id id inner)
  unfolding close_id
  close-Kept stack id marks exhausted kept = kept
  close-Kept stack id marks (cycle path) kept = kept
  close-Kept stack id marks (clear more) kept = (
    record { ends = ends; held = held },
    omega (arith, kept.1, unmarked-set nodes id opened marks, unmarked-set nodes id closed more),
    at_end,
  )
    where
      at_end : Acc (Needs deps) id
      at_end = Acc.intro id kept.2

      ends : (k : Text) → get k (set id closed more) ≡ some closed → Acc (Needs deps) k
      ends k e = elim (Bool-cases (id == k)) [
        | inl same ↦ subst (Acc (Needs deps)) ((eq_iff id k).0 same) at_end
        | inr other ↦ kept.0.ends k (ground (arith, e, other, get-set id k closed more))
      ]

      held : (k : Text) → get k (set id closed more) ≡ some opened → has k stack ≡ true
      held k e = ground (arith, e, get-set id k closed more, kept.0.held k, has-snoc k id stack)

  open-Fits :
      (stack : List Text) (id : Text) (marks : Map Text Mark)
      → Fits deps stack marks
      → Fits deps (stack ++ id ∷ []) (set id opened marks)
  open-Fits stack id marks fits = record {
    ends = λ k e. fits.ends k (ground (arith, e, get-set id k opened marks));
    held = λ k e. ground (arith, e, get-set id k opened marks, fits.held k, has-snoc k id stack);
  }

  -- With fuel for the ids that have no mark, a walk of a stack that leads to its id keeps.
  pub walk-Kept :
      ((id : Text) → (has id nodes ≡ true) ⊎ (deps_of deps id ≡ []))
      → (fuel : ℕ) (stack : List Text) (id : Text) (marks : Map Text Mark) → Fits deps stack marks
      → Leads deps stack id
      → suc (unmarked nodes marks) ≤ fuel
      → Kept deps nodes stack marks (Acc (Needs deps) id) (walk fuel deps stack id marks)
  unfolding walk
  walk-Kept known zero stack id marks fits leads enough = absurd (omega arith)
  walk-Kept known (suc fuel) stack id marks fits leads enough = by_mark (get id marks) refl (λ free.
      each-Kept (walk fuel deps (stack ++ id ∷ [])) (stack ++ id ∷ [])
        (unmarked nodes (set id opened marks)) (deps_of deps id)
        (λ d more at fitting few.
          walk-Kept known fuel (stack ++ id ∷ []) d more fitting (Leads-on deps stack id d leads at)
            (elim (known id) [
              | inl node ↦
                  omega (arith, enough, few, unmarked-fresh nodes id opened marks free node)
              | inr leaf ↦ absurd (not_in_none d (deps_of deps id) at leaf)
            ]))
        (set id opened marks) (open-Fits stack id marks fits) (omega arith))
    where
      by_mark :
          (m : Option Mark)
          → get id marks ≡ m
          → (get id marks ≡ none
              → Kept deps nodes
                  (stack ++ id ∷ [])
                  (set id opened marks)
                  ((d : Text) → Needs deps d id → Acc (Needs deps) d)
                  (each
                    (walk fuel deps (stack ++ id ∷ []))
                    (deps_of deps id)
                    (set id opened marks)))
          → Kept deps nodes stack marks (Acc (Needs deps) id) (elim m as (λ x. Found) [
            | none ↦
                close_id id
                  (each (walk fuel deps (stack ++ id ∷ [])) (deps_of deps id) (set id opened marks))
            | some x ↦ elim x as (λ x'. Found) [
              | opened ↦ cycle (slice_from id stack ++ id ∷ [])
              | closed ↦ clear marks
            ]
          ])
      by_mark none e inner =
          close-Kept stack id marks
            (each (walk fuel deps (stack ++ id ∷ [])) (deps_of deps id) (set id opened marks))
            (inner e)
      by_mark (some opened) e inner = slice-IsCycle deps stack id leads (fits.held id e)
      by_mark (some closed) e inner = (fits, omega arith, fits.ends id e)
