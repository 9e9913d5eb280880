-- ===== src/Runtime/Semaphore/Order.antt =====
-- Admission to the semaphore of runtime/lanes.ts is first come, first served.
use mathlib.Core.List.{append-nil, append_assoc}
use native.Mathlib.Numerals.{add-one}
use mr_robot.Common.{
  ℕ, suc, ◌+◌, ◌≡◌, refl, ◌≤◌, Bool, true, not, some, List, [], ◌∷◌, ◌++◌, arith, ◌==◌, filter,
  Bool-cases, inl, inr, ap, ltb, ◌≢◌, ◌&&◌,
}
use mr_robot.Runtime.Semaphore.{
  Waiter, Semaphore, create, grant, acquire, listens, abort, held, set_released, pass_on, release,
  act, run, Action, acquires, aborts, releases,
}
use mr_robot.Runtime.Semaphore.Invariant.{IsFair, act-IsFair, create-IsFair}

-- Strictly increasing, and below a bound.
abbrev pub Rising : ℕ → List ℕ → ℕ → Type 0
Rising low [] high = low ≤ high
Rising low (x ∷ xs) high = (low ≤ x) × Rising (suc x) xs high

unfoldable pub ids : List Waiter → List ℕ
ids [] = []
ids (w ∷ ws) = w.id ∷ ids ws

Rising-weaken :
    (xs : List ℕ) (low lower high higher : ℕ)
    → lower ≤ low
    → high ≤ higher
    → Rising low xs high
    → Rising lower xs higher
Rising-weaken [] low lower high higher p q r = omega arith
Rising-weaken (x ∷ xs) low lower high higher p q r =
    (omega arith, Rising-weaken xs (suc x) (suc x) high higher (omega arith) q r.1)

Rising-append :
    (xs : List ℕ) (low high : ℕ) → Rising low xs high → Rising low (xs ++ high ∷ []) (suc high)
Rising-append [] low high r = (r, omega arith)
Rising-append (x ∷ xs) low high r = (r.0, Rising-append xs (suc x) high r.1)

Rising-filter :
    (gs : List ℕ) (p : Waiter → Bool) (ws : List Waiter) (low high : ℕ)
    → Rising low (gs ++ ids ws) high
    → Rising low (gs ++ ids (filter p ws)) high
unfolding filter ids
Rising-filter (g ∷ gs) p ws low high r = (r.0, Rising-filter gs p ws (suc g) high r.1)
Rising-filter [] p [] low high r = r
Rising-filter [] p (w ∷ ws) low high r = elim (Bool-cases (p w)) [
  | inl keep ↦ rw keep (r.0, Rising-filter [] p ws (suc w.id) high r.1)
  | inr drop ↦ rw drop (
      Rising-filter [] p ws low high
        (Rising-weaken (ids ws) (suc w.id) low high high (omega (arith, r.0)) (omega arith) r.1))
]

abbrev InOrder : Semaphore → Type 0
InOrder s = Rising 0 (s.granted ++ ids s.waiters) s.next

ids-append : (ws : List Waiter) (w : Waiter) → ids (ws ++ w ∷ []) ≡ ids ws ++ w.id ∷ []
unfolding ids
ids-append [] w = refl
ids-append (v ∷ ws) w = ap (λ l. v.id ∷ l) (ids-append ws w)

no_waiters : (s : Semaphore) → IsFair s → ltb s.active s.cap ≡ true → s.waiters ≡ []
no_waiters s f h = none_left s.waiters f.working
  where
    none_left : (ws : List Waiter) → (ws ≢ [] → s.active ≡ s.cap) → ws ≡ []
    none_left [] w = refl
    none_left (x ∷ xs) w = absurd (ground (arith, w (λ e. cc)))

acquire-InOrder :
    (s : Semaphore) (has_signal aborted : Bool)
    → IsFair s
    → InOrder s
    → InOrder (acquire s has_signal aborted)
unfolding ids
acquire-InOrder s has_signal aborted f r = elim (Bool-cases (has_signal && aborted)) [
  | inl fired ↦
      unfold acquire in
      rw fired (
        Rising-weaken (s.granted ++ ids s.waiters) 0 0 s.next (s.next + 1) (omega arith)
          (omega arith) r)
  | inr quiet ↦ elim (Bool-cases (ltb s.active s.cap)) [
    | inl free ↦
        let empty = no_waiters s f free in
        let before : Rising 0 s.granted s.next = rw (append-nil s.granted) at (rw empty at r) in
        unfold acquire grant ids in
        rw (quiet, free, empty, append-nil, add-one) (Rising-append s.granted 0 s.next before)
    | inr full ↦
        unfold acquire in
        rw (quiet, full, ids-append, ← append_assoc, add-one)
          (Rising-append (s.granted ++ ids s.waiters) 0 s.next r)
  ]
]

abort-InOrder : (s : Semaphore) (id : ℕ) → InOrder s → InOrder (abort s id)
abort-InOrder s id r = elim (Bool-cases (listens id s.waiters)) [
  | inl queued ↦
      unfold abort in
      rw queued (Rising-filter s.granted (λ w. not (w.id == id)) s.waiters 0 s.next r)
  | inr gone ↦ unfold abort in rw gone r
]

pass_on-InOrder :
    (s : Semaphore) (ws : List Waiter)
    → Rising 0 (s.granted ++ ids ws) s.next
    → s.waiters ≡ ws
    → InOrder (pass_on s ws)
unfolding pass_on grant ids
pass_on-InOrder s [] r e = rw e r
pass_on-InOrder s (w ∷ ws) r e = rw append_assoc r

release-InOrder : (s : Semaphore) (id : ℕ) → InOrder s → InOrder (release s id)
release-InOrder s id r = elim (Bool-cases (held id s.permits)) [
  | inl live ↦
      unfold release in
      rw live (pass_on-InOrder (record s { permits = set_released id s.permits }) s.waiters r refl)
  | inr spent ↦ unfold release in rw spent r
]

act-InOrder : (s : Semaphore) (a : Action) → IsFair s → InOrder s → InOrder (act s a)
unfolding act
act-InOrder s (acquires has_signal aborted) f r = acquire-InOrder s has_signal aborted f r
act-InOrder s (aborts id) f r = abort-InOrder s id r
act-InOrder s (releases id) f r = release-InOrder s id r

run-InOrder :
    (s : Semaphore) (actions : List Action) → IsFair s → InOrder s → InOrder (run s actions)
unfolding run
run-InOrder s [] f r = r
run-InOrder s (a ∷ rest) f r = run-InOrder (act s a) rest (act-IsFair s a f) (act-InOrder s a f r)

-- Admission is first come, first served: whatever the callers do, the calls that were granted, in the
-- order of their grants, followed by those that wait, in the order of the queue, stand in the order in
-- which they were made. No call is granted before an older one that still waits.
pub admission_is_fifo :
    (cap : ℕ) (actions : List Action) {s : Semaphore}
    → create cap ≡ some s
    → Rising 0 ((run s actions).granted ++ ids (run s actions).waiters) (run s actions).next
admission_is_fifo cap actions {s} h = run-InOrder s actions (create-IsFair cap h) (empty s h)
  where
    empty : (s : Semaphore) → create cap ≡ some s → InOrder s
    empty s h = let (g, w) = none_yet s h in rw (g, w) (unfold ids in omega arith)
      where
        none_yet : (s : Semaphore) → create cap ≡ some s → (s.granted ≡ []) × (s.waiters ≡ [])
        none_yet s h = unfold create in ground arith
