-- ===== src/Goals/Plan/Chain.antt =====
-- The search for a cycle in goals/plan.ts: what the stack and the marks of a walk mean.
use mr_robot.Common.{
  ℕ, suc, ◌+◌, ◌≤◌, ◌≡◌, sym, ap, subst, inl, inr, true, none, some, List, [], ◌∷◌, ◌++◌, arith,
  Bool-cases,
}
use mathlib.Core.WellFounded.{Acc}
use mr_robot.Common.Text.{Text, ◌==◌, eq_iff}
use mr_robot.Common.Map.{Map, text_eq, get, set, has, get-set}
use mr_robot.Goals.Plan.{Mark, opened, closed, Found, exhausted, cycle, clear, deps_of, slice_from}

abbrev pub Deps : Type 0
Deps = Map Text (List Text)

-- `d` stands in the dependencies of `t`.
abbrev pub Needs : Deps → Text → Text → Type 0
Needs deps d t = has d (deps_of deps t) ≡ true

-- Each id of the stack needs the next, and the last needs `id`.
abbrev pub Leads : Deps → List Text → Text → Type 0
Leads deps [] id = Unit
Leads deps (x ∷ []) id = Needs deps id x
Leads deps (x ∷ y ∷ stack) id = Needs deps y x × Leads deps (y ∷ stack) id

-- A path of ids, each needing the next, that ends where it starts.
abbrev pub IsCycle : Deps → List Text → Type 0
IsCycle deps path =
    (id : Text) × (rest : List Text) × (path ≡ id ∷ rest ++ id ∷ []) × Leads deps (id ∷ rest) id

pub Leads-on :
    (deps : Deps) (stack : List Text) (id d : Text)
    → Leads deps stack id
    → Needs deps d id
    → Leads deps (stack ++ id ∷ []) d
Leads-on deps [] id d h n = n
Leads-on deps (x ∷ []) id d h n = (h, n)
Leads-on deps (x ∷ y ∷ stack) id d h n = (h.0, Leads-on deps (y ∷ stack) id d h.1 n)

pub Leads-tail :
    (deps : Deps) (x : Text) (stack : List Text) (id : Text)
    → Leads deps (x ∷ stack) id
    → Leads deps stack id
Leads-tail deps x [] id h = tt
Leads-tail deps x (y ∷ stack) id h = h.1

-- The part of the stack from an id that it leads to is a cycle.
pub slice-IsCycle :
    (deps : Deps) (stack : List Text) (id : Text)
    → Leads deps stack id
    → has id stack ≡ true
    → IsCycle deps (slice_from id stack ++ id ∷ [])
unfolding slice_from has
slice-IsCycle deps [] id h at = ground arith
slice-IsCycle deps (x ∷ stack) id h at = elim (Bool-cases (x == id)) [
  | inl same ↦ rw same (
    x,
    stack,
    ap (λ i. x ∷ stack ++ i ∷ []) (sym ((eq_iff x id).0 same)),
    subst (λ i. Leads deps (x ∷ stack) i) (sym ((eq_iff x id).0 same)) h,
  )
  | inr other ↦
      rw other
        (slice-IsCycle deps stack id (Leads-tail deps x stack id h) (ground (arith, at, other)))
]

pub not_in_none : (d : Text) (ds : List Text) → has d ds ≡ true → ds ≡ [] → ⊥
unfolding has
not_in_none d [] at e = ground arith
not_in_none d (x ∷ ds) at e = ground arith

-- The ids of `nodes` that have no mark yet.
unfoldable pub unmarked : List Text → Map Text Mark → ℕ
unmarked [] marks = 0
unmarked (n ∷ nodes) marks = elim (get n marks) [ none ↦ 1 | some m ↦ 0 ] + unmarked nodes marks

pub unmarked-set :
    (nodes : List Text) (id : Text) (m : Mark) (marks : Map Text Mark)
    → unmarked nodes (set id m marks) ≤ unmarked nodes marks
unfolding unmarked
unmarked-set [] id m marks = omega arith
unmarked-set (n ∷ nodes) id m marks =
    ground (arith, unmarked-set nodes id m marks, get-set id n m marks)

pub unmarked-fresh :
    (nodes : List Text) (id : Text) (m : Mark) (marks : Map Text Mark)
    → get id marks ≡ none
    → has id nodes ≡ true
    → suc (unmarked nodes (set id m marks)) ≤ unmarked nodes marks
unfolding unmarked has
unmarked-fresh [] id m marks free at = ground arith
unmarked-fresh (n ∷ nodes) id m marks free at = ground (
  arith,
  unmarked-set nodes id m marks,
  unmarked-fresh nodes id m marks free,
  get-set id n m marks,
  eq_iff n id,
  eq_iff id n,
)

-- A closed id is one whose chains of dependencies all end; an opened one is in the stack.
pub record Fits (deps : Deps) (stack : List Text) (marks : Map Text Mark) : Type 0 where
  pub ends : (k : Text) → get k marks ≡ some closed → Acc (Needs deps) k
  pub held : (k : Text) → get k marks ≡ some opened → has k stack ≡ true

-- What a walk or a loop from `marks` leaves: it does not run out, a path it reports is a cycle, and
-- marks it leaves fit the stack, are no fewer, and go with what was to be shown.
abbrev pub Kept : Deps → List Text → List Text → Map Text Mark → Type 0 → Found → Type 0
Kept deps nodes stack marks Done exhausted = ⊥
Kept deps nodes stack marks Done (cycle path) = IsCycle deps path
Kept deps nodes stack marks Done (clear more) =
    Fits deps stack more × (unmarked nodes more ≤ unmarked nodes marks) × Done
