-- ===== src/Runtime/Scheduler/Claims.antt =====
-- The claims of a scheduler (runtime/scheduler.ts): how often a minute is claimed, the last one of an agent,
-- and the calls that lead to a state.
use mr_robot.Common.{
  ℕ, ◌+◌, ◌≤◌, ◌≡◌, refl, ap, ◌∙◌, inl, inr, ◌&&◌, Option, none, some, List, [], ◌∷◌, ◌++◌, arith,
  Bool-cases, if◌then◌else◌,
}
use mr_robot.Common.Text.{Text, ◌==◌}
use mr_robot.Common.Map.{Map, text_eq, get, set, get-set}
use mr_robot.Runtime.Cron.Key.{LocalDate}
use mr_robot.Runtime.Scheduler.{Claim, World, Scheduler, create, seed, start, stop, tick}

-- How often the minute stands in the list for the agent.
unfoldable pub times : Text → Text → List Claim → ℕ
times agent key [] = 0
times agent key (c ∷ cs) =
    (if (c.agent_id == agent) && (c.minute == key) then 1 else 0) + times agent key cs

-- The callers, with the clock's reading at each tick: it never goes back. A restart is a new
-- scheduler over the log of the old one; the runs that were started are remembered.
pub data Reaches (clock : ℕ → LocalDate) : ℕ → Scheduler → Type 0 where
  boot : Reaches clock 0 (start (create []))
  ticks :
      {t : ℕ} {s : Scheduler} (w : World) (u : ℕ)
      → Reaches clock t s
      → t ≤ u
      → Reaches clock u (tick w (clock u) s)
  restarts :
      {t : ℕ} {s : Scheduler}
      → Reaches clock t s
      → Reaches clock t (record (start (create s.claims)) { starts = s.starts })
  stops : {t : ℕ} {s : Scheduler} → Reaches clock t s → Reaches clock t (start (stop s))

pub times-append :
    (a k : Text) (cs : List Claim) (c : Claim)
    → times a k (cs ++ c ∷ [])
      ≡ times a k cs + (if (c.agent_id == a) && (c.minute == k) then 1 else 0)
unfolding times
times-append a k [] c = ground arith
times-append a k (x ∷ cs) c = ground (arith, times-append a k cs c)

-- The last minute of an agent in the log, or what stood there before it.
pub last_minute : Text → List Claim → Option Text → Option Text
last_minute a [] before = before
last_minute a (c ∷ cs) before = last_minute a cs (if c.agent_id == a then some c.minute else before)

pub last_minute-append :
    (a : Text) (cs : List Claim) (c : Claim) (before : Option Text)
    → last_minute a (cs ++ c ∷ []) before
      ≡ (if c.agent_id == a then some c.minute else last_minute a cs before)
unfolding last_minute
last_minute-append a [] c before = refl
last_minute-append a (x ∷ cs) c before =
    last_minute-append a cs c (if x.agent_id == a then some x.minute else before)

pub get-seed :
    (a : Text) (cs : List Claim) (m : Map Text Text)
    → get a (seed cs m) ≡ last_minute a cs (get a m)
unfolding seed last_minute
get-seed a [] m = refl
get-seed a (c ∷ cs) m =
    get-seed a cs (set c.agent_id c.minute m)
    ∙ ap (last_minute a cs) (get-set c.agent_id a c.minute m)

pub last_minute-default :
    (a k : Text) (cs : List Claim) (before : Option Text)
    → last_minute a cs none ≡ some k
    → last_minute a cs before ≡ some k
unfolding last_minute
last_minute-default a k [] before h = ground arith
last_minute-default a k (c ∷ cs) before h = elim (Bool-cases (c.agent_id == a)) [
  | inl mine ↦ rw (mine, last_minute) (rw (mine, last_minute) at h)
  | inr other ↦
      rw (other, last_minute) (last_minute-default a k cs before (rw (other, last_minute) at h))
]
