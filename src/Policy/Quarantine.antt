-- ===== src/Policy/Quarantine.antt =====
-- policy/quarantine.ts: withheld tool output. Whether the event store takes a row is an argument of the
-- operations that append, since `append` may throw; the rows that it took are `log`.
mod Release
pub mod Rebuild
pub mod Taint
pub mod Human
use mr_robot.Common.{
  ℕ, ◌≡◌, String, Bool, true, false, not, ◌||◌, Option, none, some, List, [], ◌∷◌, ◌++◌, map,
  filter, if◌then◌else◌,
}
use mr_robot.Common.Map.{Map, string_eq, get, set, values, has}
use mr_robot.Policy.Actor.{Actor, assert_human}

pub record Hold : Type 0 where
  pub hold_id : String
  pub run_id : String
  pub tool_ref : String
  pub reason : String
  pub held_at : ℕ

pub record ReleasedHold : Type 0 where
  pub hold : Hold
  pub output : String
  pub by_connection_id : String

pub record Entry : Type 0 where
  pub hold : Hold
  pub output : String
  pub released : Bool

pub data LogRow : Type 0 where
  held_row : Hold → LogRow
  released_row : Hold → String → LogRow

pub record Quarantine : Type 0 where
  pub entries : Map String Entry
  pub tainted : List String
  -- The calls of `onTainted`.
  pub notified : List String
  pub log : List LogRow

pub data Failure : Type 0 where
  not_human unknown_hold already_released not_released log_refused : Failure

pub data Result {ℓ} (A : Type ℓ) : Type ℓ where
  ok : A → Result A
  threw : Failure → Result A

-- `hold`, under the id that randomUUID gave.
unfoldable pub hold : Quarantine → Hold → String → Bool → Quarantine × Result Hold
hold q h output logged =
    let t = record q {
      entries = set h.hold_id (record { hold = h; output = output; released = false }) q.entries;
    } in
    if logged then (record t { log = q.log ++ held_row h ∷ [] }, ok h) else (t, threw log_refused)

unfoldable pub pending : Quarantine → List Hold
pending q = map (λ (e : Entry). e.hold) (filter (λ (e : Entry). not e.released) (values q.entries))

-- The release of a hold that is there and stands: the mark, the taint, the callback, then the row.
unfoldable pub let_go : Quarantine → Entry → String → Bool → Quarantine × Result ReleasedHold
let_go q e connection logged =
    let t = record q {
      entries = set e.hold.hold_id (record e { released = true }) q.entries;
      tainted = if has e.hold.run_id q.tainted then q.tainted else q.tainted ++ e.hold.run_id ∷ [];
      notified = q.notified ++ e.hold.run_id ∷ [];
    } in
    if logged
    then (
      record t { log = q.log ++ released_row e.hold connection ∷ [] },
      ok (record { hold = e.hold; output = e.output; by_connection_id = connection }),
    )
    else (t, threw log_refused)

unfoldable pub release : Quarantine → String → Actor → Bool → Quarantine × Result ReleasedHold
release q id actor logged = elim (assert_human actor) [
  | none ↦ (q, threw not_human)
  | some connection ↦ elim (get id q.entries) [
    | none ↦ (q, threw unknown_hold)
    | some e ↦ if e.released then (q, threw already_released) else let_go q e connection logged
  ]
]

unfoldable pub read : Quarantine → String → Result String
read q id = elim (get id q.entries) [
  | none ↦ threw unknown_hold
  | some e ↦ if not e.released then threw not_released else ok e.output
]

unfoldable pub is_tainted : Quarantine → String → Bool
is_tainted q run = has run q.tainted

-- The callers of the quarantine, in any order. An id comes from randomUUID, so a hold has a new one.
pub data Step (q : Quarantine) : Quarantine → Type 0 where
  holds :
      (h : Hold) (output : String) (logged : Bool)
      → get h.hold_id q.entries ≡ none
      → Step q (hold q h output logged).0
  releases : (id : String) (actor : Actor) (logged : Bool) → Step q (release q id actor logged).0

pub data Reaches (q : Quarantine) : Quarantine → Type 0 where
  here : Reaches q q
  next : {r s : Quarantine} → Reaches q r → Step r s → Reaches q s

abbrev pub empty : Quarantine
empty = record { entries = []; tainted = []; notified = []; log = [] }
