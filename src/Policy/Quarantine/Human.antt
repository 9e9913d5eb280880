-- ===== src/Policy/Quarantine/Human.antt =====
-- Held output and the people who let it go: the traces of policy/quarantine.ts.
use mr_robot.Common.{
  String, ◌≡◌, sym, ◌∙◌, ◌⊎◌, inl, inr, Bool, true, false, some, arith, Bool-cases, Option-cases,
}
use mr_robot.Common.Map.{string_eq, get, get-set}
use mr_robot.Policy.Actor.{human}
use mr_robot.Policy.Quarantine.Release.{release-cases}
use mr_robot.Policy.Quarantine.Taint.{reached-IsConsistent}
use mr_robot.Policy.Quarantine.{
  Hold, Entry, Quarantine, ok, hold, let_go, read, holds, releases, Reaches, here, next, empty,
}

-- A step of the trace is a release of this hold by a human.
unfoldable pub HumanReleased : {q s : Quarantine} → String → Reaches q s → Type 0
HumanReleased id here = ⊥
HumanReleased id (next r (holds h output logged new)) = HumanReleased id r
HumanReleased id (next r (releases i actor logged)) =
    HumanReleased id r ⊎ ((i ≡ id) × (c : String) × (actor ≡ human c))

-- The output of the hold can be read.
abbrev Readable : String → Quarantine → Type 0
Readable id q = (e : Entry) × (get id q.entries ≡ some e) × (e.released ≡ true)

hold-Readable :
    (q : Quarantine) (h : Hold) (output : String) (logged : Bool) (id : String)
    → Readable id (hold q h output logged).0
    → Readable id q
unfolding hold
hold-Readable q h output logged id t = (
  t.0,
  ground (
    arith,
    t.1,
    get-set h.hold_id id (record { hold = h; output = output; released = false }) q.entries,
  ),
  t.2,
)

let_go-Readable :
    (q : Quarantine) (e : Entry) (i c : String) (logged : Bool) (id : String)
    → e.hold.hold_id ≡ i
    → Readable id (let_go q e c logged).0
    → Readable id q ⊎ (i ≡ id)
unfolding let_go
let_go-Readable q e i c logged id filed t = elim (Bool-cases (string_eq.beq e.hold.hold_id id)) [
  | inl same ↦ inr (sym filed ∙ (string_eq.beq_iff e.hold.hold_id id).0 same)
  | inr other ↦ inl (
    t.0,
    ground (arith, t.1, get-set e.hold.hold_id id (record e { released = true }) q.entries),
    t.2,
  )
]

Readable-by_human :
    {s : Quarantine} (r : Reaches empty s) (id : String) → Readable id s → HumanReleased id r
unfolding get hold HumanReleased
Readable-by_human here id t = ground (arith, t.1)
Readable-by_human (next r (holds h output logged new)) id t =
    Readable-by_human r id (hold-Readable _ h output logged id t)
Readable-by_human (next {r = q} r (releases i actor logged)) id t =
    elim (release-cases q i actor logged) [
      | inl same ↦ inl (Readable-by_human r id (rw (sym same) t))
      | inr (c, e, is_human, found, stood, is) ↦
          elim (let_go-Readable q e i c logged id ((reached-IsConsistent r).filed i e found)
            (rw (sym is) t)) [
              | inl before ↦ inl (Readable-by_human r id before)
              | inr same ↦ inr (same, c, is_human)
            ]
    ]

-- In every trace of holds and releases from an empty quarantine: when `read` gives an output, some
-- step of the trace is a release of that very hold by a genuine human actor. Forged actors, other
-- holds' releases and the store's failures never make a held output readable.
pub read_needs_human :
    (s : Quarantine) (r : Reaches empty s) (id output : String)
    → read s id ≡ ok output
    → HumanReleased id r
unfolding read
read_needs_human s r id output h = elim (Option-cases (get id s.entries)) [
  | inl missing ↦ ground arith
  | inr (e, found) ↦ elim (Bool-cases e.released) [
    | inl was ↦ Readable-by_human r id (e, found, was)
    | inr stood ↦ ground arith
  ]
]
