-- ===== src/Runtime/Scheduler/Once.antt =====
-- No minute is claimed twice for an agent: runtime/scheduler.ts, over ticks, stops and restarts.
use mr_robot.Common.{
  ℕ, ◌≤◌, ◌≡◌, sym, ◌∙◌, subst, inl, inr, Bool, true, false, not, none, some, List, [], ◌∷◌, ◌++◌,
  arith, Bool-cases, Option-cases, if_both,
}
use mr_robot.Common.Text.{Text, ◌==◌, eq_iff}
use mr_robot.Common.Map.{Map, text_eq, get, set, get-set}
use mr_robot.Runtime.Cron.{CronExpr}
use mr_robot.Runtime.Cron.Match.{cron_matches}
use mr_robot.Runtime.Cron.Key.{LocalDate, minute_key}
use mr_robot.Runtime.Scheduler.{
  ScheduledAgent, Claim, World, Scheduler, create, seed, start, stop, expr_for, has_fired, claim_of,
  claim, consider, over_agents, tick,
}
use mr_robot.Runtime.Scheduler.Claims.{
  times, Reaches, boot, ticks, restarts, stops, times-append, last_minute, last_minute-append,
  get-seed, last_minute-default,
}

abbrev key_at : (ℕ → LocalDate) → ℕ → Text
key_at clock t = minute_key (clock t)

record IsOnce (clock : ℕ → LocalDate) (t : ℕ) (s : Scheduler) : Type 0 where
  once : (a j : Text) → times a j s.claims ≤ 1
  marked :
      (a : Text) → 1 ≤ times a (key_at clock t) s.claims → get a s.fired ≡ some (key_at clock t)
  last :
      (a : Text)
      → 1 ≤ times a (key_at clock t) s.claims
      → last_minute a s.claims none ≡ some (key_at clock t)
  past : (a j : Text) → 1 ≤ times a j s.claims → (v : ℕ) × (v ≤ t) × (key_at clock v ≡ j)
  runs : (a j : Text) → times a j s.starts ≤ times a j s.claims

module _ (clock : ℕ → LocalDate) (t : ℕ) (s : Scheduler) (a : ScheduledAgent) (i : IsOnce clock t s)
    (idle : has_fired s.fired a.agent_id (key_at clock t) ≡ false) where
  abbrev claimed : Claim
  claimed = claim_of a (key_at clock t)

  fresh : times a.agent_id (key_at clock t) s.claims ≡ 0
  unfolding has_fired
  fresh = ground (arith, idle, i.marked a.agent_id, eq_iff (key_at clock t) (key_at clock t))

  marked-IsOnce : IsOnce clock t (record s { fired = set a.agent_id (key_at clock t) s.fired })
  marked-IsOnce = record {
    once = i.once;
    marked = λ b h. ground (arith, get-set a.agent_id b (key_at clock t) s.fired, i.marked b);
    last = i.last;
    past = i.past;
    runs = i.runs;
  }

  logged-IsOnce :
      (starts : List Claim)
      → ((b j : Text) → times b j starts ≤ times b j (s.claims ++ claimed ∷ []))
      → IsOnce clock t (record s {
        fired = set a.agent_id (key_at clock t) s.fired;
        claims = s.claims ++ claimed ∷ [];
        starts = starts;
      })
  logged-IsOnce starts fewer = record {
    once = λ b j. ground (
      arith,
      times-append b j s.claims claimed,
      i.once b j,
      fresh,
      eq_iff a.agent_id b,
      eq_iff (key_at clock t) j,
    );
    marked = λ b h. ground (
      arith,
      get-set a.agent_id b (key_at clock t) s.fired,
      i.marked b,
      times-append b (key_at clock t) s.claims claimed,
    );
    last = λ b h. ground (
      arith,
      last_minute-append b s.claims claimed none,
      i.last b,
      times-append b (key_at clock t) s.claims claimed,
    );
    past = λ b j h. elim (Bool-cases (key_at clock t == j)) [
      | inl now ↦ (t, omega arith, (eq_iff (key_at clock t) j).0 now)
      | inr before ↦ i.past b j (ground (arith, times-append b j s.claims claimed))
    ];
    runs = fewer;
  }

  more_claims : (b j : Text) → times b j s.starts ≤ times b j (s.claims ++ claimed ∷ [])
  more_claims b j = ground (arith, times-append b j s.claims claimed, i.runs b j)

  more_both :
      (b j : Text) → times b j (s.starts ++ claimed ∷ []) ≤ times b j (s.claims ++ claimed ∷ [])
  more_both b j =
      ground
        (arith, times-append b j s.claims claimed, times-append b j s.starts claimed, i.runs b j)

  claim-IsOnce : (w : World) → IsOnce clock t (claim w s a (key_at clock t)).0
  unfolding claim
  claim-IsOnce w =
      if_both (λ (p : Scheduler × Bool). IsOnce clock t p.0) (not (w.takes a.agent_id))
        marked-IsOnce
        (if_both (λ (p : Scheduler × Bool). IsOnce clock t p.0) (w.busy a.agent_id)
          (logged-IsOnce s.starts more_claims)
          (if_both (λ (p : Scheduler × Bool). IsOnce clock t p.0) (w.launches a.agent_id)
            (logged-IsOnce (s.starts ++ claimed ∷ []) more_both)
            (logged-IsOnce s.starts more_claims)))

compiled-IsOnce :
    (clock : ℕ → LocalDate) (t : ℕ) (s : Scheduler) (c : Map Text CronExpr)
    → IsOnce clock t s
    → IsOnce clock t (record s { compiled = c })
compiled-IsOnce clock t s c i = record {
  once = i.once;
  marked = i.marked;
  last = i.last;
  past = i.past;
  runs = i.runs;
}

consider-IsOnce :
    (clock : ℕ → LocalDate) (t : ℕ) (w : World) (s : Scheduler) (a : ScheduledAgent)
    → IsOnce clock t s
    → IsOnce clock t (consider w (clock t) s a).0
unfolding consider
consider-IsOnce clock t w s a i = elim (Option-cases (expr_for s.compiled a.schedule)) [
  | inl unusable ↦ rw (unusable, consider) i
  | inr ((expr, compiled), usable) ↦
      let j = compiled-IsOnce clock t s compiled i in
      rw (usable, consider)
        (if_both (λ (p : Scheduler × Bool). IsOnce clock t p.0)
          (not (cron_matches expr (clock t).minute)) j
          (elim (Bool-cases (has_fired s.fired a.agent_id (key_at clock t))) [
            | inl fired ↦ rw fired j
            | inr idle ↦
                rw idle (claim-IsOnce clock t (record s { compiled = compiled }) a j idle w)
          ]))
]

over_agents-IsOnce :
    (clock : ℕ → LocalDate) (t : ℕ) (w : World) (agents : List ScheduledAgent) (s : Scheduler)
    → IsOnce clock t s
    → IsOnce clock t (over_agents w (clock t) agents s)
unfolding over_agents
over_agents-IsOnce clock t w [] s i = i
over_agents-IsOnce clock t w (a ∷ agents) s i =
    let j = consider-IsOnce clock t w s a i in
    if_both (IsOnce clock t) (consider w (clock t) s a).1
      (over_agents-IsOnce clock t w agents (consider w (clock t) s a).0 j) j

-- A minute that has passed does not come back: the local clock repeats no hour.
abbrev pub NeverRepeats : (ℕ → LocalDate) → Type 0
NeverRepeats clock =
    (v t u : ℕ) → v ≤ t → t ≤ u → key_at clock v ≡ key_at clock u → key_at clock t ≡ key_at clock u

later-IsOnce :
    (clock : ℕ → LocalDate) (steady : NeverRepeats clock) (t u : ℕ) (s : Scheduler)
    → t ≤ u
    → IsOnce clock t s
    → IsOnce clock u s
later-IsOnce clock steady t u s le i = record {
  once = i.once;
  marked = λ a h.
      subst (λ k. get a s.fired ≡ some k) (same a h)
        (i.marked a (subst (λ k. 1 ≤ times a k s.claims) (sym (same a h)) h));
  last = λ a h.
      subst (λ k. last_minute a s.claims none ≡ some k) (same a h)
        (i.last a (subst (λ k. 1 ≤ times a k s.claims) (sym (same a h)) h));
  past = λ a j h. let (v, before, is) = i.past a j h in (v, omega (arith, before), is);
  runs = i.runs;
}
  where
    same : (a : Text) → 1 ≤ times a (key_at clock u) s.claims → key_at clock t ≡ key_at clock u
    same a h = let (v, before, is) = i.past a (key_at clock u) h in steady v t u before le is

seeded-IsOnce :
    (clock : ℕ → LocalDate) (t : ℕ) (s : Scheduler) (fired : Map Text Text) (c : Map Text CronExpr)
    (ticking started : Bool)
    → IsOnce clock t s
    → IsOnce clock t (record {
      fired = seed s.claims fired;
      compiled = c;
      ticking = ticking;
      started = started;
      claims = s.claims;
      starts = s.starts;
    })
seeded-IsOnce clock t s fired c ticking started i = record {
  once = i.once;
  marked = λ a h.
      get-seed a s.claims fired
      ∙ last_minute-default a (key_at clock t) s.claims (get a fired) (i.last a h);
  last = i.last;
  past = i.past;
  runs = i.runs;
}

boot-IsOnce : (clock : ℕ → LocalDate) → IsOnce clock 0 (start (create []))
unfolding start times
boot-IsOnce clock = record {
  once = λ a j. omega arith;
  marked = λ a h. ground (arith, h);
  last = λ a h. ground (arith, h);
  past = λ a j h. ground (arith, h);
  runs = λ a j. omega arith;
}

reached-IsOnce :
    (clock : ℕ → LocalDate)
    → NeverRepeats clock
    → {t : ℕ} {s : Scheduler} → Reaches clock t s
    → IsOnce clock t s
unfolding tick start stop
reached-IsOnce clock steady boot = boot-IsOnce clock
reached-IsOnce clock steady (ticks {t = t} {s = s} w u r le) =
    over_agents-IsOnce clock u w w.agents s
      (later-IsOnce clock steady t u s le (reached-IsOnce clock steady r))
reached-IsOnce clock steady (restarts {t = t} {s = s} r) =
    seeded-IsOnce clock t s [] [] true true (reached-IsOnce clock steady r)
reached-IsOnce clock steady (stops {t = t} {s = s} r) =
    seeded-IsOnce clock t s s.fired s.compiled true true (reached-IsOnce clock steady r)

-- While the local clock repeats no minute that has passed: over any ticks, stops and restarts,
-- with any agents, busy or not, and whatever the store refuses and whichever runs fail to start, the log holds at most one
-- claim of a minute for an agent, and at most one run was started for it.
pub minute_fires_once :
    (clock : ℕ → LocalDate) (steady : NeverRepeats clock) (t : ℕ) (s : Scheduler)
    (r : Reaches clock t s) (agent minute : Text)
    → (times agent minute s.claims ≤ 1) × (times agent minute s.starts ≤ 1)
minute_fires_once clock steady t s r agent minute =
    let i = reached-IsOnce clock steady r in
    let claimed = i.once agent minute in
    let started = i.runs agent minute in (claimed, omega (arith, claimed, started))
