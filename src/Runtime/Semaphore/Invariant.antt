-- ===== src/Runtime/Semaphore/Invariant.antt =====
-- The cap of the semaphore of runtime/lanes.ts holds whatever its callers do.
use mathlib.Core.List.{append-nil}
use mr_robot.Common.{
  ℕ, suc, ◌≡◌, ◌≢◌, refl, ◌≤◌, Bool, true, false, not, List, [], ◌∷◌, ◌++◌, arith, some, ◌==◌,
  filter, if◌then◌else◌, Bool-cases, inl, inr, ◌∙◌, ap, sym,
}
use mr_robot.Runtime.Semaphore.{
  act, run, Action, acquires, aborts, releases, Waiter, Permit, Semaphore, create, grant, acquire,
  abort, held, set_released, pass_on, release,
}

-- The permits that are out.
unfoldable pub out : List Permit → ℕ
out [] = 0
out (p ∷ ps) = let rest = out ps in if p.released then rest else suc rest

pub record IsFair (s : Semaphore) : Type 0 where
  pub usable : 1 ≤ s.cap
  pub counted : s.active ≡ out s.permits
  pub capped : s.active ≤ s.cap
  pub working : s.waiters ≢ [] → s.active ≡ s.cap

out-append :
    (ps : List Permit) (id : ℕ)
    → out (ps ++ record { id = id; released = false } ∷ []) ≡ suc (out ps)
unfolding out
out-append [] id = refl
out-append (p ∷ ps) id = ground (arith, out-append ps id)

out-set_released :
    (ps : List Permit) (id : ℕ) → held id ps ≡ true → suc (out (set_released id ps)) ≡ out ps
unfolding out held set_released
out-set_released [] id h = cc
out-set_released (p ∷ ps) id h = ground (arith, out-set_released ps id)

acquire-IsFair :
    (s : Semaphore) (has_signal aborted : Bool) → IsFair s → IsFair (acquire s has_signal aborted)
unfolding acquire
acquire-IsFair s has_signal aborted f = ground (arith, out-append s.permits s.next, f.working)

filter-nil : (p : Waiter → Bool) (ws : List Waiter) → filter p ws ≢ [] → ws ≢ []
unfolding filter
filter-nil p [] h e = h refl
filter-nil p (w ∷ ws) h e = cc

abort-IsFair : (s : Semaphore) (id : ℕ) → IsFair s → IsFair (abort s id)
unfolding abort
abort-IsFair s id f =
    ground (arith, f.working, filter-nil (λ (w : Waiter). not (w.id == id)) s.waiters)

pass_on-IsFair :
    (s : Semaphore) (ws : List Waiter)
    → 1 ≤ s.cap
    → s.active ≡ suc (out s.permits)
    → s.active ≤ s.cap
    → (ws ≢ [] → s.active ≡ s.cap)
    → s.waiters ≡ ws
    → IsFair (pass_on s ws)
unfolding pass_on grant
pass_on-IsFair s [] u c k w e = ground (arith, w)
pass_on-IsFair s (x ∷ ws) u c k w e = ground (arith, out-append s.permits x.id, w)

release-IsFair : (s : Semaphore) (id : ℕ) → IsFair s → IsFair (release s id)
unfolding release
release-IsFair s id f = elim (Bool-cases (held id s.permits)) [
  | inl live ↦
      let fewer = out-set_released s.permits id live in
      rw live (
        pass_on-IsFair (record s { permits = set_released id s.permits }) s.waiters f.usable
          (omega (arith, f.counted, fewer)) f.capped f.working refl)
  | inr spent ↦ rw spent f
]

pub act-IsFair : (s : Semaphore) (a : Action) → IsFair s → IsFair (act s a)
unfolding act
act-IsFair s (acquires has_signal aborted) f = acquire-IsFair s has_signal aborted f
act-IsFair s (aborts id) f = abort-IsFair s id f
act-IsFair s (releases id) f = release-IsFair s id f

run-IsFair : (s : Semaphore) (actions : List Action) → IsFair s → IsFair (run s actions)
unfolding run
run-IsFair s [] f = f
run-IsFair s (a ∷ rest) f = run-IsFair (act s a) rest (act-IsFair s a f)

pub create-IsFair : (cap : ℕ) {s : Semaphore} → create cap ≡ some s → IsFair s
unfolding create out
create-IsFair cap h = ground arith

run-cap : (s : Semaphore) (actions : List Action) → (run s actions).cap ≡ s.cap
unfolding run
run-cap s [] = refl
run-cap s (a ∷ rest) = run-cap (act s a) rest ∙ act-cap s a
  where
    pass_on-cap : (s : Semaphore) (ws : List Waiter) → (pass_on s ws).cap ≡ s.cap
    pass_on-cap s [] = unfold pass_on in refl
    pass_on-cap s (w ∷ ws) = unfold pass_on grant in refl

    act-cap : (s : Semaphore) (a : Action) → (act s a).cap ≡ s.cap
    act-cap s (acquires has_signal aborted) = unfold act acquire in ground arith
    act-cap s (aborts id) = unfold act abort in ground arith
    act-cap s (releases id) =
        unfold act release in
        ground (arith, pass_on-cap (record s { permits = set_released id s.permits }) s.waiters)

-- Whatever the callers do, repeated releases and aborts included, a semaphore never has more permits out
-- than its capacity, its count of active permits is the number that is out, and no caller waits while a
-- permit is free.
pub cap_is_kept :
    (cap : ℕ) (actions : List Action) {s : Semaphore}
    → create cap ≡ some s
    → (out (run s actions).permits ≤ cap)
      × ((run s actions).active ≡ out (run s actions).permits)
      × ((run s actions).waiters ≢ [] → out (run s actions).permits ≡ cap)
cap_is_kept cap actions {s} h =
    let f = run-IsFair s actions (create-IsFair cap h) in
    let same : s.cap ≡ cap = unfold create in ground arith in
    let kept = run-cap s actions in
    (
      omega (arith, f.counted, f.capped, kept, same),
      f.counted,
      λ waiting. omega (arith, f.counted, f.working waiting, kept, same),
    )

held-set_released :
    (ps more : List Permit) (id : ℕ)
    → held id ps ≡ true
    → held id (set_released id ps ++ more) ≡ false
unfolding held set_released
held-set_released [] more id h = cc
held-set_released (p ∷ ps) more id h = ground (arith, held-set_released ps more id)

pass_on-permits :
    (s : Semaphore) (ws : List Waiter)
    → (more : List Permit) × ((pass_on s ws).permits ≡ s.permits ++ more)
unfolding pass_on grant
pass_on-permits s [] = ([], sym (append-nil s.permits))
pass_on-permits s (w ∷ ws) = (record { id = w.id; released = false } ∷ [], refl)

release-spent : (s : Semaphore) (id : ℕ) → held id s.permits ≡ false → release s id ≡ s
unfolding release
release-spent s id h = rw h

-- Releasing a permit a second time changes nothing, so a double release hands out no permit that was
-- never taken.
pub release_twice : (s : Semaphore) (id : ℕ) → release (release s id) id ≡ release s id
release_twice s id = elim (Bool-cases (held id s.permits)) [
  | inr spent ↦ ap (λ t. release t id) (release-spent s id spent)
  | inl live ↦
      let (more, e) =
        pass_on-permits (record s { permits = set_released id s.permits }) s.waiters in
      let passed : release s id
          ≡ pass_on (record s { permits = set_released id s.permits }) s.waiters =
        unfold release in rw live in
      release-spent (release s id) id (
        rw (ap (λ (t : Semaphore). t.permits) passed ∙ e)
          (held-set_released s.permits more id live))
]
