-- ===== src/Runtime/Semaphore.antt =====
-- The counting semaphore of runtime/lanes.ts. The promises and closures of the code are a store: each
-- call of `acquire` takes the next id, a permit's `released` flag is its entry in `permits`, and a
-- promise that has settled stands in `granted` or `rejected`.
pub mod Invariant
pub mod Order
use mr_robot.Common.{
  ℕ, ◌+◌, ◌-◌, ◌≡◌, Bool, true, false, not, ◌&&◌, Option, none, some, List, [], ◌∷◌, ◌++◌, ltb,
  ◌==◌, filter, if◌then◌else◌,
}

pub record Waiter : Type 0 where
  pub id : ℕ
  -- The waiter has a signal, with its abort listener on it.
  pub abortable : Bool

pub record Permit : Type 0 where
  pub id : ℕ
  pub released : Bool

pub record Semaphore : Type 0 where
  pub cap : ℕ
  pub active : ℕ
  pub waiters : List Waiter
  pub permits : List Permit
  pub granted : List ℕ
  pub rejected : List ℕ
  pub next : ℕ

-- `none` is a thrown KernelError.
unfoldable pub create : ℕ → Option Semaphore
create cap =
    if ltb cap 1
    then none
    else some (record {
      cap = cap;
      active = 0;
      waiters = [];
      permits = [];
      granted = [];
      rejected = [];
      next = 0;
    })

-- `resolve(this.#makeRelease())`
unfoldable pub grant : Semaphore → ℕ → Semaphore
grant s id = record s {
  permits = s.permits ++ record { id = id; released = false } ∷ [];
  granted = s.granted ++ id ∷ [];
}

unfoldable pub idle : Semaphore → Bool
idle s = s.active == 0 && elim s.waiters [ [] ↦ true | w ∷ ws ↦ false ]

-- `acquire`, by a caller with or without a signal, which may have fired already.
unfoldable pub acquire : Semaphore → Bool → Bool → Semaphore
unfolding grant
acquire s has_signal aborted =
    let t = record s { next = s.next + 1 } in
    if has_signal && aborted
    then record t { rejected = s.rejected ++ s.next ∷ [] }
    else if ltb s.active s.cap
    then grant (record t { active = s.active + 1 }) s.next
    else record t { waiters = s.waiters ++ record { id = s.next; abortable = has_signal } ∷ [] }

unfoldable pub listens : ℕ → List Waiter → Bool
listens id [] = false
listens id (w ∷ ws) = if w.id == id then w.abortable else listens id ws

-- The abort event of a call's signal: the listener runs if the call is still queued, since being
-- granted removes it.
unfoldable pub abort : Semaphore → ℕ → Semaphore
unfolding listens
abort s id =
    if listens id s.waiters
    then record s {
      waiters = filter (λ w. not (w.id == id)) s.waiters;
      rejected = s.rejected ++ id ∷ [];
    }
    else s

-- The flag of a release function; a call that was never granted has none to call.
unfoldable pub held : ℕ → List Permit → Bool
held id [] = false
held id (p ∷ ps) = if p.id == id then not p.released else held id ps

unfoldable pub set_released : ℕ → List Permit → List Permit
set_released id [] = []
set_released id (p ∷ ps) =
    if p.id == id then record p { released = true } ∷ ps else p ∷ set_released id ps

-- The permit passes to the first waiter, or goes back to the pool.
unfoldable pub pass_on : Semaphore → List Waiter → Semaphore
unfolding grant
pass_on s [] = record s { active = s.active - 1 }
pass_on s (w ∷ ws) = grant (record s { waiters = ws }) w.id

unfoldable pub release : Semaphore → ℕ → Semaphore
release s id =
    if held id s.permits
    then pass_on (record s { permits = set_released id s.permits }) s.waiters
    else s

-- What the callers may do, in any order: a call of acquire, an abort event, a call of a release
-- function, the first or a repeated one.
pub data Action : Type 0 where
  acquires : Bool → Bool → Action
  aborts releases : ℕ → Action

unfoldable pub act : Semaphore → Action → Semaphore
act s (acquires has_signal aborted) = acquire s has_signal aborted
act s (aborts id) = abort s id
act s (releases id) = release s id

unfoldable pub run : Semaphore → List Action → Semaphore
run s [] = s
run s (a ∷ rest) = run (act s a) rest
