-- ===== src/Runtime/Delegation/Ordered.antt =====
-- What every state of runtime/delegate.ts keeps: the order of a plan, the depth of a delegation and the
-- number of children; and the two steps that change the children of a run.
use mr_robot.Common.{
  ℕ, suc, ◌≤◌, ◌≡◌, refl, sym, ◌∙◌, subst, inl, inr, true, false, Option, none, some, List, [], ◌∷◌,
  length, arith, if◌then◌else◌, Bool-cases, Option-cases,
}
use mr_robot.Common.Text.{Text, ◌==◌, eq_iff}
use mr_robot.Common.Map.{Map, text_eq, get, set, has, get-set}
use mr_robot.Goals.Plan.{PlanTask}
use mr_robot.Runtime.Delegation.{
  RunStatus, AdoptedPlan, ChildRecord, RunState, Delegation, state_of, put_state, open_state,
}
use mr_robot.Runtime.Delegation.Handoff.{is_ok, finished_well, first_waiting, set_status}

-- Each child serves a task of the plan, and all that the task depends on has finished well.
abbrev pub Follows : RunState → Text → Type 0
Follows s task_id =
    (plan : AdoptedPlan) × (task : PlanTask) × (s.adopted ≡ some plan)
    × (get task_id plan.tasks ≡ some task)
    × (first_waiting s.children task.depends_on ≡ none)

abbrev pub AllFollow : RunState → Type 0
AllFollow s =
    (task_id : Text) (c : ChildRecord) → get task_id s.children ≡ some c → Follows s task_id

pub record IsOrdered (limit : Text → ℕ) (d : Delegation) : Type 0 where
  pub follow : (run_id : Text) → AllFollow (state_of run_id d)
  pub leaf : (run_id : Text) → has run_id d.child_runs ≡ true → (state_of run_id d).children ≡ []
  pub few : (run_id : Text) → length (state_of run_id d).children ≤ limit run_id

-- Children that have finished well are still so, and those that serve a task are among the given ones.
pub first_waiting_mono :
    (m n : Map Text ChildRecord) (deps : List Text)
    → ((k : Text) → finished_well (get k m) ≡ true → finished_well (get k n) ≡ true)
    → first_waiting m deps ≡ none
    → first_waiting n deps ≡ none
unfolding first_waiting
first_waiting_mono m n [] keeps e = refl
first_waiting_mono m n (dep ∷ deps) keeps e =
    ground (arith, e, keeps dep, first_waiting_mono m n deps keeps)

pub state-put :
    (x y : Text) (s : RunState) (d : Delegation)
    → state_of x (put_state y s d) ≡ (if y == x then s else state_of x d)
unfolding state_of
state-put x y s d = ground (arith, get-set y x s d.runs)

pub state-open : (x y : Text) (d : Delegation) → state_of x (open_state y d) ≡ state_of x d
unfolding state_of open_state
state-open x y d = elim (Option-cases (get y d.runs)) [
  | inl e ↦
      rw (e, open_state)
        (ground
          (arith, e, get-set y x (record { adopted = none; children = [] }) d.runs, eq_iff y x))
  | inr (s, e) ↦ rw (e, open_state) refl
]

pub child_runs-open : (y : Text) (d : Delegation) → (open_state y d).child_runs ≡ d.child_runs
unfolding open_state
child_runs-open y d = by (get y d.runs)
  where
    by :
        (o : Option RunState)
        → (elim o as (λ x. Delegation) [
          | some s ↦ d
          | none ↦ put_state y (record { adopted = none; children = [] }) d
        ]).child_runs
          ≡ d.child_runs
    by none = refl
    by (some s) = refl

-- What is ordered stays so when one run's state is replaced by one that is.
pub put-IsOrdered :
    (limit : Text → ℕ) (y : Text) (s : RunState) (d : Delegation)
    → IsOrdered limit d
    → AllFollow s
    → (has y d.child_runs ≡ true → s.children ≡ [])
    → length s.children ≤ limit y
    → IsOrdered limit (put_state y s d)
put-IsOrdered limit y s d h follow leaf few = record {
  follow = λ x. by (λ r. AllFollow r) x (λ e. follow) (h.follow x);
  leaf = λ x at.
      by (λ r. r.children ≡ []) x (λ e. leaf (subst (λ z. has z d.child_runs ≡ true) (sym e) at))
        (h.leaf x at);
  few = λ x.
      by (λ r. length r.children ≤ limit x) x (λ e. subst (λ z. length s.children ≤ limit z) e few)
        (h.few x);
}
  where
    by :
        (P : RunState → Type 0) (x : Text)
        → (y ≡ x → P s)
        → P (state_of x d)
        → P (state_of x (put_state y s d))
    by P x new old = subst P (sym (state-put x y s d)) (elim (Bool-cases (y == x)) [
      | inl same ↦ rw same (new ((eq_iff y x).0 same))
      | inr other ↦ rw other old
    ])

pub length-set :
    (k : Text) (c : ChildRecord) (m : Map Text ChildRecord) → length (set k c m) ≤ suc (length m)
unfolding set
length-set k c [] = omega arith
length-set k c ((j, w) ∷ m) = ground (arith, length-set k c m)

length-set_present :
    (k : Text) (c v : ChildRecord) (m : Map Text ChildRecord)
    → get k m ≡ some v
    → length (set k c m) ≡ length m
unfolding set get
length-set_present k c v [] e = ground arith
length-set_present k c v ((j, w) ∷ m) e = ground (arith, e, length-set_present k c v m)

-- A child that had not finished well may be replaced by any.
finished-set :
    (t : Text) (c : ChildRecord) (m : Map Text ChildRecord)
    → finished_well (get t m) ≡ false
    → (k : Text) → finished_well (get k m) ≡ true
    → finished_well (get k (set t c m)) ≡ true
finished-set t c m idle k well = elim (Bool-cases (t == k)) [
  | inl same ↦ absurd (
      ground
        (arith, idle, subst (λ j. finished_well (get j m) ≡ true) (sym ((eq_iff t k).0 same)) well))
  | inr other ↦ subst (λ o. finished_well o ≡ true) (sym (get-set t k c m ∙ rw other refl)) well
]

Follows-set :
    (s : RunState) (t : Text) (c : ChildRecord) (k : Text)
    → finished_well (get t s.children) ≡ false
    → Follows s k
    → Follows (record s { children = set t c s.children }) k
Follows-set s t c k idle (plan, task, has_plan, has_task, waits) = (
  plan,
  task,
  has_plan,
  has_task,
  first_waiting_mono s.children (set t c s.children) task.depends_on
      (finished-set t c s.children idle) waits,
)

-- Setting a child of a task that follows, and has no child that finished well, keeps the rest.
pub set-AllFollow :
    (s : RunState) (t : Text) (c : ChildRecord)
    → AllFollow s
    → Follows s t
    → finished_well (get t s.children) ≡ false
    → AllFollow (record s { children = set t c s.children })
set-AllFollow s t c h turn idle k v at = Follows-set s t c k idle (elim (Bool-cases (t == k)) [
  | inl same ↦ subst (Follows s) ((eq_iff t k).0 same) turn
  | inr other ↦ h k v (sym (get-set t k c s.children ∙ rw other refl) ∙ at)
])

-- A run's outcome reaches the child that the launch made, which has no status yet.
pub settle-AllFollow :
    (s : RunState) (t child : Text) (status : RunStatus)
    → AllFollow s
    → ((c : ChildRecord)
        → get t s.children ≡ some c
        → (c.child_run_id == child) ≡ true
        → c.status ≡ none)
    → AllFollow (record s { children = set_status t child status s.children })
unfolding set_status finished_well is_ok
settle-AllFollow s t child status h pending = by (get t s.children) refl
  where
    by :
        (o : Option ChildRecord)
        → get t s.children ≡ o
        → AllFollow (record s {
          children = elim o as (λ x. Map Text ChildRecord) [
            | none ↦ s.children
            | some c ↦
                if c.child_run_id == child
                then set t (record c { status = some status }) s.children
                else s.children
          ];
        })
    by none e = h
    by (some c) e = elim (Bool-cases (c.child_run_id == child)) [
      | inl same ↦ rw same (
          set-AllFollow s t (record c { status = some status }) h (h t c e)
            (rw e (rw (pending c e same) refl)))
      | inr other ↦ rw other h
    ]

pub length-set_status :
    (t child : Text) (status : RunStatus) (m : Map Text ChildRecord)
    → length (set_status t child status m) ≡ length m
unfolding set_status
length-set_status t child status m = by (get t m) refl
  where
    by :
        (o : Option ChildRecord)
        → get t m ≡ o
        → length (elim o as (λ x. Map Text ChildRecord) [
          | none ↦ m
          | some c ↦
              if c.child_run_id == child then set t (record c { status = some status }) m else m
        ])
          ≡ length m
    by none e = refl
    by (some c) e = ground (arith, length-set_present t (record c { status = some status }) c m e)
