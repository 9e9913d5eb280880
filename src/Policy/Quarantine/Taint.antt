-- ===== src/Policy/Quarantine/Taint.antt =====
-- Releasing taints: what policy/quarantine.ts keeps between its entries and the tainted runs.
use mr_robot.Common.{
  String, ◌≡◌, inl, inr, Bool, true, false, some, List, [], ◌∷◌, ◌++◌, arith, Bool-cases,
  Option-cases,
}
use mr_robot.Common.Map.{string_eq, get, get-set, has}
use mr_robot.Policy.Actor.{Actor}
use mr_robot.Policy.Quarantine.Release.{release-cases}
use mr_robot.Policy.Quarantine.{
  Hold, Entry, Quarantine, ok, hold, let_go, release, read, is_tainted, holds, releases, Reaches,
  here, next, empty,
}

-- Every entry stands under its own id, and a released one belongs to a tainted run.
pub record IsConsistent (q : Quarantine) : Type 0 where
  pub filed : (id : String) (e : Entry) → get id q.entries ≡ some e → e.hold.hold_id ≡ id
  pub tainting :
      (id : String) (e : Entry)
      → get id q.entries ≡ some e
      → e.released ≡ true
      → has e.hold.run_id q.tainted ≡ true

has-append : (x y : String) (l : List String) → has x l ≡ true → has x (l ++ y ∷ []) ≡ true
unfolding has
has-append x y [] h = cc
has-append x y (z ∷ l) h = ground (arith, has-append x y l)

has-last : (x : String) (l : List String) → has x (l ++ x ∷ []) ≡ true
unfolding has
has-last x [] = ground (arith, string_eq.beq_iff x x)
has-last x (z ∷ l) = ground (arith, has-last x l)

hold-IsConsistent :
    (q : Quarantine) (h : Hold) (output : String) (logged : Bool)
    → IsConsistent q
    → IsConsistent (hold q h output logged).0
unfolding hold
hold-IsConsistent q h output logged c = record {
  filed = λ id e g. ground (
    arith,
    get-set h.hold_id id (record { hold = h; output = output; released = false }) q.entries,
    string_eq.beq_iff h.hold_id id,
    c.filed id e,
  );
  tainting = λ id e g r. ground (
    arith,
    get-set h.hold_id id (record { hold = h; output = output; released = false }) q.entries,
    c.tainting id e,
  );
}

let_go-IsConsistent :
    (q : Quarantine) (e : Entry) (connection : String) (logged : Bool)
    → IsConsistent q
    → IsConsistent (let_go q e connection logged).0
unfolding let_go
let_go-IsConsistent q e connection logged c = record {
  filed = λ id f g. ground (
    arith,
    get-set e.hold.hold_id id (record e { released = true }) q.entries,
    string_eq.beq_iff e.hold.hold_id id,
    c.filed id f,
  );
  tainting = λ id f g r. ground (
    arith,
    get-set e.hold.hold_id id (record e { released = true }) q.entries,
    c.tainting id f,
    has-append f.hold.run_id e.hold.run_id q.tainted,
    has-last e.hold.run_id q.tainted,
  );
}

release-IsConsistent :
    (q : Quarantine) (id : String) (actor : Actor) (logged : Bool)
    → IsConsistent q
    → IsConsistent (release q id actor logged).0
release-IsConsistent q id actor logged c = elim (release-cases q id actor logged) [
  | inl same ↦ rw same c
  | inr (connection, e, human_actor, found, stood, is) ↦
      rw is (let_go-IsConsistent q e connection logged c)
]

empty-IsConsistent : IsConsistent empty
unfolding get
empty-IsConsistent = record { filed = λ id e g. ground arith; tainting = λ id e g r. ground arith }

pub reached-IsConsistent : {q : Quarantine} → Reaches empty q → IsConsistent q
reached-IsConsistent here = empty-IsConsistent
reached-IsConsistent (next r (holds h output logged new)) =
    hold-IsConsistent _ h output logged (reached-IsConsistent r)
reached-IsConsistent (next r (releases id actor logged)) =
    release-IsConsistent _ id actor logged (reached-IsConsistent r)

-- In every quarantine that holds and releases lead to from an empty one, whatever the store does
-- with their rows: when `read` gives the output of a hold, a hold with that id stands in the
-- quarantine with that output, and its run is tainted.
pub read_output_taints :
    (q : Quarantine) (r : Reaches empty q) (id output : String)
    → read q id ≡ ok output
    → (e : Entry) × (get id q.entries ≡ some e)
      × (e.output ≡ output)
      × (is_tainted q e.hold.run_id ≡ true)
unfolding read is_tainted
read_output_taints q r id output h = elim (Option-cases (get id q.entries)) [
  | inl missing ↦ ground arith
  | inr (e, found) ↦ elim (Bool-cases e.released) [
    | inl was ↦ (e, found, ground arith, (reached-IsConsistent r).tainting id e found was)
    | inr stood ↦ ground arith
  ]
]
