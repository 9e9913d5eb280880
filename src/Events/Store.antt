-- ===== src/Events/Store.antt =====
-- events/store.ts: the append-only event store over the table, the anchor file and the trust mark.
-- The table's triggers (events/schema.ts) are part of `insert`. Writing the anchor file is taken to
-- succeed, and `writtenAt` is left out.
mod Data
mod Payload
unfoldable pub use Data.*
unfoldable pub use Payload.*
pub mod Query
pub mod Lifecycle
pub mod Sound
pub mod Tail
pub mod Append
pub mod Trust
use mr_robot.Common.{
  is_some, ℕ, zero, suc, ◌+◌, ◌%◌, ◌≡◌, refl, ◌⊎◌, inl, inr, Bool, true, false, not, ◌&&◌, ◌||◌,
  Option, none, some, List, [], ◌∷◌, ◌++◌, ltb, ◌==◌ as nat_eq, filter, if◌then◌else◌,
}
use mr_robot.Common.Text.{Text, ◌==◌}
use mr_robot.Events.Canonical.{
  Js, Json, Items, Fields, null, undef, fraction, exotic, unsupported, bool, str, int, arr, obj,
  nil, cons, end, field, canonicalize,
}
use mr_robot.Events.Redact.{redact_value}
use mr_robot.Events.Bound.{max_logged_output, truncated}
use mr_robot.Events.Types.{is_event_type}
use mr_robot.Events.Chain
use mr_robot.Events.Chain.{
  Unhashed, EventRow, Db, Anchor, genesis, hash_row, tail_seq, VerifyResult, ok, failed,
}

-- `ORDER BY seq DESC LIMIT 1`
unfoldable pub last_row : List EventRow → Option EventRow
last_row [] = none
last_row (row ∷ []) = some row
last_row (row ∷ next ∷ rest) = last_row (next ∷ rest)

unfoldable pub head : Js → List EventRow → Text
head js rows = elim (last_row rows) [ none ↦ genesis js | some row ↦ row.hash ]

unfoldable pub clashes : EventRow → List EventRow → Bool
clashes new [] = false
clashes new (row ∷ rest) = row.id == new.id || row.hash == new.hash || clashes new rest

-- The INSERT under the trigger `events_append_only`; AUTOINCREMENT raises the counter.
unfoldable pub insert : Db → EventRow → Option Db
insert db row =
    if not (nat_eq row.seq (tail_seq db.rows + 1)) || clashes row db.rows
    then none
    else some (record {
      rows = db.rows ++ row ∷ [];
      counter = if ltb db.counter row.seq then row.seq else db.counter;
    })

-- The IMMEDIATE transaction: read the tail and the counter, number, hash and insert.
unfoldable pub transaction :
    Js → Db → Now → Text → Option Text → Option Text → Text → Result (EventRow × Db)
transaction js db now type run_id agent_id payload =
    if ltb (tail_seq db.rows) db.counter
    then threw chain_broken
    else let unhashed : Unhashed = record {
      seq = tail_seq db.rows + 1;
      id = now.id;
      ts = now.ts;
      type = type;
      run_id = run_id;
      agent_id = agent_id;
      payload = payload;
      prev_hash = head js db.rows;
    } in
      elim (hash_row js unhashed) [
        | none ↦ threw not_canonical
        | some hash ↦
            let row : EventRow = record { content = unhashed; hash = hash } in
            elim (insert db row) [ none ↦ threw insert_refused | some db' ↦ done (row, db') ]
      ]

anchor_of : Js → ℕ → Text → Anchor
anchor_of js seq hash = record { genesis = genesis js; seq = seq; hash = hash }

-- `writeAnchor(at?)`
-- `writeAnchor(at?)`. Without a row it reads the table, which a closed database refuses.
unfoldable pub write_anchor : Js → Store → Option EventRow → Store × Result (Option Anchor)
unfolding anchor_of
write_anchor js s at =
    let anchor : Anchor = elim at [
      | some row ↦ anchor_of js row.seq row.hash
      | none ↦ anchor_of js (tail_seq s.db.rows) (head js s.db.rows)
    ] in
    if not s.options.has_head_file
    then (s, done none)
    else if s.closed && not (is_some at)
    then (s, threw database_closed)
    else (record s { disk = some anchor }, done (some anchor))

-- `#notify`: every listener is called, and one that throws is logged and skipped.
unfoldable pub notify : EventRow → List ℕ → List (ℕ × EventRow)
notify row [] = []
notify row (l ∷ ls) = (l, row) ∷ notify row ls

-- Behind the commit: the periodic anchor of a trusted store, which is written here, and the listeners.
unfoldable pub committed : Js → Store → EventRow → Db → Store
unfolding notify
committed js s row db =
    let t = record s { db = db } in
    let u =
      if ltb 0 s.options.anchor_every && nat_eq (row.seq % s.options.anchor_every) 0 && s.trusted
      then (write_anchor js t (some row)).0
      else t in
    record u { delivered = u.delivered ++ notify row u.listeners }

-- Inside a run no other run may be named.
unfoldable pub claims_other : Option Text → Option Text → Bool
claims_other (some run) (some named) = not (named == run)
claims_other _ _ = false

abbrev pub or_else : Option Text → Option Text → Option Text
or_else none t = t
or_else (some s) t = some s

unfoldable pub append : Runtime → Store → Now → AppendInput → Store × Result EventRow
append rt s now input =
    if s.options.read_only
    then (s, threw read_only)
    else if not (is_event_type input.type)
    then (s, threw unknown_type)
    else if claims_other now.scope input.run_id
    then (s, threw writer_claim)
    else elim (payload_text rt input.type input.payload) [
      | threw e ↦ (s, threw e)
      | done text ↦
          if s.closed
          then (s, threw database_closed)
          else elim (transaction rt.js s.db now input.type (or_else input.run_id now.scope)
              input.agent_id text) [
                | threw e ↦ (s, threw e)
                | done (row, db) ↦ (committed rt.js s row db, done row)
              ]
    ]

-- The constructor. `existing` is the database found at the path, if it has an events table, and
-- `triggers_ok` the verdict on its triggers.
unfoldable pub open_store : Options → Option Db → Bool → Option Anchor → Result Store
open_store options existing triggers_ok disk =
    if ltb 0 options.anchor_every && not options.has_head_file
    then threw nowhere_to_anchor
    else elim existing [
      | none ↦
          if options.read_only
          then threw bad_triggers
          else done (record {
            options = options;
            db = record { rows = []; counter = 0 };
            disk = disk;
            trusted = true;
            closed = false;
            listeners = [];
            delivered = [];
          })
      | some db ↦
          if not triggers_ok
          then threw bad_triggers
          else done (record {
            options = options;
            db = db;
            disk = disk;
            trusted = false;
            closed = false;
            listeners = [];
            delivered = [];
          })
    ]

-- `readAnchor()`
unfoldable pub read_anchor : Store → Option Anchor
read_anchor s = if s.options.has_head_file then s.disk else none

unfoldable pub consulted : Option Anchor → Option Anchor → Bool
consulted none anchor = true
consulted (some on_disk) none = false
consulted (some on_disk) (some anchor) =
    nat_eq anchor.seq on_disk.seq && anchor.hash == on_disk.hash

-- `verifyChain(anchor?)`; `none` is a throw, of the canonicalizer or of a closed database. A
-- pass that consulted the anchor on disk earns trust.
unfoldable pub verify : Js → Store → Option Anchor → Option (Store × VerifyResult)
verify js s anchor = elim (if s.closed then none else Chain.verify_chain js s.db anchor) [
  | none ↦ none
  | some (failed at reason) ↦ some (s, failed at reason)
  | some (ok count t) ↦ some (
    (if not s.trusted && consulted (read_anchor s) anchor then record s { trusted = true } else s),
    ok count t,
  )
]

is_listener : ℕ → List ℕ → Bool
is_listener l [] = false
is_listener l (m ∷ ms) = nat_eq m l || is_listener l ms

unfoldable pub subscribe : Store → ℕ → Store
unfolding is_listener
subscribe s l = record s {
  listeners = if is_listener l s.listeners then s.listeners else s.listeners ++ l ∷ [];
}

-- The function that `subscribe` returns.
unfoldable pub unsubscribe : Store → ℕ → Store
unsubscribe s l = record s { listeners = filter (λ m. not (nat_eq m l)) s.listeners }

unfoldable pub close : Js → Store → Store
close js s =
    if s.closed
    then s
    else let t =
        if not s.options.read_only && s.options.has_head_file && s.trusted
        then (write_anchor js s none).0
        else s in
      record t { closed = true; listeners = [] }
