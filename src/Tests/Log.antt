-- ===== src/Tests/Log.antt =====
-- The event log at a concrete store: one event in a fresh log, and what the theorems say of it.
use mr_robot.Common.{
  ℕ, ◌≤◌, ◌↔◌, ◌≡◌, ◌≢◌, refl, true, false, Option, none, some, List, [], ◌∷◌, ◌++◌, length,
}
use mr_robot.Common.Text.{Text, text, ◌==◌}
use mr_robot.Events.Canonical.{obj, end, canonicalize, canonical_hash}
use mr_robot.Events.Redact.{redact_value, contains}
use mr_robot.Events.Bound.{truncated, byte_length}
use mr_robot.Events.Types.{is_event_type}
use mr_robot.Events.Chain.{
  Unhashed, EventRow, Db, Anchor, genesis, hash_row, row_json, tail_seq, ok, check_row, walk,
  row_at_anchor, check_anchor, after_walk, verify_chain,
}
use mr_robot.Events.Chain.Accepts.{Chained, AnchoredIf, verify_chain_accepts}
use mr_robot.Events.Chain.Tamper.{head_determines_rows, anchored_history_is_fixed}
use mr_robot.Events.Store.{
  Options, Now, AppendInput, Store, Result, payload_text, strip_undefined, last_row, head, clashes,
  insert, transaction, claims_other, append, open_store, read_anchor, consulted, verify,
}
use mr_robot.Events.Store.Append.{append_writer_claim}
use mr_robot.Events.Store.Lifecycle.{Reaches, Step, honest_log_verifies}
use mr_robot.Events.Store.Trust.{trust_rests_on_disk}
use mr_robot.Tests.Sample.{js, laws, runtime}

abbrev options : Options
options = record { read_only = false; anchor_every = 1; has_head_file = true }

abbrev created : Store
created = record {
  options = options;
  db = record { rows = []; counter = 0 };
  disk = none;
  trusted = true;
  closed = false;
  listeners = [];
  delivered = [];
}

created_opens : open_store options none true none ≡ Result.done created
unfolding open_store
created_opens = refl

abbrev boot : AppendInput
boot = record { type = text "kernel.booted"; payload = obj end; run_id = none; agent_id = none }

abbrev now : Now
now = record { id = text "a"; ts = text "t"; scope = some (text "run_1") }

abbrev written : Store
written = (append runtime created now boot).0

abbrev row : Unhashed
row = record {
  seq = 1;
  id = text "a";
  ts = text "t";
  type = text "kernel.booted";
  run_id = some (text "run_1");
  agent_id = none;
  payload = text "{}";
  prev_hash = text "aos-kernel:events:v1";
}

abbrev or_empty : Option Text → Text
or_empty none = []
or_empty (some t) = t

abbrev stored : EventRow
stored = record { content = row; hash = or_empty (hash_row js row) }

append_writes : (append runtime created now boot).1 ≡ Result.done stored
unfolding append runtime js is_event_type contains claims_other payload_text strip_undefined
    redact_value canonicalize canonical_hash truncated byte_length transaction tail_seq head
    last_row genesis hash_row row_json insert clashes ◌==◌
append_writes = refl

once : Reaches runtime created written
once = Reaches.next Reaches.here (Step.appends now boot)

honest_log_verifies_example :
    (head : Text) × (verify_chain js written.db written.disk
      ≡ some (ok (length written.db.rows) head))
unfolding runtime
honest_log_verifies_example = honest_log_verifies runtime options created_opens once

append_writer_claim_example : stored.run_id ≡ some (text "run_1")
append_writer_claim_example =
    append_writer_claim runtime created now boot (text "run_1") refl append_writes

abbrev reader : Store
reader = record created { options = record options { read_only = true } }

abbrev one_row : Db
one_row = record { rows = stored ∷ []; counter = 1 }

abbrev uncounted : Db
uncounted = record { rows = stored ∷ []; counter = 0 }

abbrev head_anchor : Anchor
head_anchor = record { genesis = genesis js; seq = 1; hash = stored.hash }

one_row_passes : verify_chain js one_row none ≡ some (ok 1 stored.hash)
unfolding verify_chain walk check_row after_walk check_anchor tail_seq runtime js canonicalize
    canonical_hash genesis hash_row row_json ◌==◌
one_row_passes = refl

uncounted_passes : verify_chain js uncounted (some head_anchor) ≡ some (ok 1 stored.hash)
unfolding verify_chain walk check_row after_walk check_anchor row_at_anchor tail_seq runtime js
    canonicalize canonical_hash genesis hash_row row_json ◌==◌
uncounted_passes = refl

verify_chain_accepts_example : (verify_chain js one_row none ≡ some (ok 1 stored.hash)) ↔ (
    Chained js 0 (genesis js) one_row.rows stored.hash
    × (1 ≡ length one_row.rows)
    × (one_row.counter ≤ tail_seq one_row.rows)
    × AnchoredIf js one_row.rows none)
verify_chain_accepts_example = verify_chain_accepts js one_row none 1 stored.hash

head_determines_rows_example : (one_row.rows ≡ uncounted.rows) × (◌≡◌ {A = ℕ} 1 1)
head_determines_rows_example =
    head_determines_rows js laws one_row uncounted none (some head_anchor) 1 1 stored.hash
      one_row_passes uncounted_passes

anchored_history_is_fixed_example :
    (later : List EventRow) × (uncounted.rows ≡ one_row.rows ++ later)
anchored_history_is_fixed_example =
    anchored_history_is_fixed js laws one_row uncounted head_anchor 1 stored.hash one_row_passes
      uncounted_passes

abbrev reopened : Store
reopened = record created { db = one_row; disk = some head_anchor; trusted = false }

anchor_passes : verify_chain js one_row (some head_anchor) ≡ some (ok 1 stored.hash)
unfolding verify_chain walk check_row after_walk check_anchor row_at_anchor tail_seq runtime js
    canonicalize canonical_hash genesis hash_row row_json ◌==◌
anchor_passes = refl

trust_earned :
    verify js reopened (some head_anchor)
    ≡ some (record reopened { trusted = true }, ok 1 stored.hash)
unfolding verify read_anchor consulted verify_chain walk check_row after_walk check_anchor
    row_at_anchor tail_seq js canonicalize canonical_hash genesis hash_row row_json ◌==◌
trust_earned = refl

trust_rests_on_disk_example :
    (n : ℕ) × (head : Text) × (verify_chain js reopened.db (read_anchor reopened)
      ≡ some (ok n head))
unfolding read_anchor
trust_rests_on_disk_example =
    trust_rests_on_disk js reopened (some head_anchor) trust_earned refl refl (λ d e. cc)

abbrev foreign : Anchor
foreign = record head_anchor { genesis = text "other" }

foreign_differs : text "other" ≢ genesis js
unfolding genesis js
foreign_differs e = cc
