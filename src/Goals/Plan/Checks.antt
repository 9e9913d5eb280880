-- ===== src/Goals/Plan/Checks.antt =====
-- What each check of assertPlanCoherent in goals/plan.ts passes.
use mr_robot.Common.{
  ◌≡◌, refl, ◌↔◌, ◌⊎◌, inl, inr, Bool, true, false, not, ◌&&◌, ◌||◌, Option, none, some, is_some,
  List, [], ◌∷◌, ◌++◌, arith, All,
}
use mr_robot.Common.Text.{Text, ◌==◌, eq_iff}
use mr_robot.Common.Map.{text_eq, has, has-snoc}
use mr_robot.Goals.Plan.{PlanTask}
use mr_robot.Goals.Plan.Coherent.{
  Refusal, first_duplicate, check_deps, check_all_deps, check_templates, check_known,
}

-- No id stands twice.
unfoldable pub distinct : List Text → Bool
distinct [] = true
distinct (x ∷ xs) = not (has x xs) && distinct xs

-- No id of the second list is in the first.
unfoldable pub apart : List Text → List Text → Bool
apart ids [] = true
apart ids (x ∷ xs) = not (has x ids) && apart ids xs

pub apart-snoc :
    (ids : List Text) (id : Text) (xs : List Text)
    → apart (ids ++ id ∷ []) xs ≡ (apart ids xs && not (has id xs))
unfolding apart has
apart-snoc ids id [] = ground arith
apart-snoc ids id (x ∷ xs) =
    ground (arith, apart-snoc ids id xs, has-snoc x id ids, eq_iff x id, eq_iff id x)

pub apart-cons :
    (id : Text) (ids xs : List Text) → apart (id ∷ ids) xs ≡ (apart ids xs && not (has id xs))
unfolding apart has
apart-cons id ids [] = ground arith
apart-cons id ids (x ∷ xs) = ground (arith, apart-cons id ids xs, eq_iff x id, eq_iff id x)

pub has-append : (x : Text) (xs ys : List Text) → has x (xs ++ ys) ≡ (has x xs || has x ys)
unfolding has
has-append x [] ys = refl
has-append x (y ∷ xs) ys = ground (arith, has-append x xs ys)

pub apart_none : (ys : List Text) → apart [] ys ≡ true
unfolding apart has
apart_none [] = refl
apart_none (y ∷ ys) = apart_none ys

pub distinct-append :
    (xs ys : List Text) → distinct (xs ++ ys) ≡ (distinct xs && distinct ys && apart xs ys)
unfolding distinct
distinct-append [] ys = ground (arith, apart_none ys)
distinct-append (x ∷ xs) ys =
    ground (arith, distinct-append xs ys, has-append x xs ys, apart-cons x xs ys)

pub first_duplicate_none :
    (ids xs : List Text) → is_some (first_duplicate ids xs) ≡ not (distinct xs && apart ids xs)
unfolding first_duplicate distinct apart
first_duplicate_none ids [] = refl
first_duplicate_none ids (x ∷ xs) =
    ground (arith, first_duplicate_none (ids ++ x ∷ []) xs, apart-snoc ids x xs)

-- A dependency is another task of the plan.
abbrev pub DepsIn : List Text → PlanTask → Type 0
DepsIn known t = All (λ d. ((d == t.id) ≡ false) × (has d known ≡ true)) t.depends_on

pub check_deps-none :
    (known : List Text) (id : Text) (deps : List Text)
    → (check_deps known id deps ≡ none) ↔ All (λ d. ((d == id) ≡ false) × (has d known ≡ true)) deps
unfolding check_deps
check_deps-none known id [] = (λ e. tt, λ h. refl)
check_deps-none known id (d ∷ deps) = ground (arith, check_deps-none known id deps)

pub check_all_deps-none :
    (known : List Text) (tasks : List PlanTask)
    → (check_all_deps known tasks ≡ none) ↔ All (DepsIn known) tasks
unfolding check_all_deps
check_all_deps-none known [] = (λ e. tt, λ h. refl)
check_all_deps-none known (t ∷ tasks) =
    by_first (check_deps known t.id t.depends_on) (check_deps-none known t.id t.depends_on)
      (check_all_deps-none known tasks)
  where
    by_first :
        {P Q : Type 0} {later : Option Refusal} (o : Option Refusal)
        → (o ≡ none) ↔ P
        → (later ≡ none) ↔ Q
        → (elim o as (λ x. Option Refusal) [ none ↦ later | some r ↦ some r ] ≡ none) ↔ (P × Q)
    by_first none p q = (λ e. (p.0 refl, q.0 e), λ h. q.1 h.1)
    by_first (some r) p q = (λ e. absurd (ground (arith, e)), λ h. absurd (ground (arith, p.1 h.0)))

pub check_templates-none :
    (known : List Text) (tasks : List PlanTask)
    → (check_templates known tasks ≡ none)
      ↔ All (λ (t : PlanTask). has t.template known ≡ true) tasks
unfolding check_templates
check_templates-none known [] = (λ e. tt, λ h. refl)
check_templates-none known (t ∷ tasks) = ground (arith, check_templates-none known tasks)

pub check_known-none :
    (known : List Text) (tasks : List PlanTask)
    → (check_known known tasks ≡ none)
      ↔ ((known ≡ []) ⊎ All (λ (t : PlanTask). has t.template known ≡ true) tasks)
unfolding check_known
check_known-none [] tasks = (λ e. inl refl, λ h. refl)
check_known-none (k ∷ known) tasks = (λ e. inr ((check_templates-none (k ∷ known) tasks).0 e), from)
  where
    from :
        (k ∷ known ≡ []) ⊎ All (λ (t : PlanTask). has t.template (k ∷ known) ≡ true) tasks
        → check_templates (k ∷ known) tasks ≡ none
    from (inl e) = absurd (ground (arith, e))
    from (inr h) = (check_templates-none (k ∷ known) tasks).1 h
