-- ===== src/Events/Chain.antt =====
-- events/chain.ts: the hash chain over the event log and its verification, and the anchor record of
-- events/anchor.ts. The table is a list in the order of `seq`, as `ORDER BY seq` returns it.
pub mod Digest
pub mod Accepts
pub mod Tamper
use mr_robot.Common.{
  ℕ, zero, suc, ◌+◌, ◌-◌, ◌≡◌, Bool, true, false, Option, none, some, List, [], ◌∷◌, ltb,
  ◌==◌ as nat_eq, length, get_elem?, if◌then◌else◌, not,
}
use mr_robot.Common.Int.{pos}
use mr_robot.Common.Partial.{◌>>=◌}
use mr_robot.Common.Text.{Text, text, ◌==◌}
use mr_robot.Events.Canonical.{
  Js, Json, null, str, int, obj, Fields, end, field, canonicalize, canonical_hash,
}

-- `Omit<EventRow, 'hash'>`
pub record Unhashed : Type 0 where
  pub seq : ℕ
  pub id : Text
  pub ts : Text
  pub type : Text
  pub run_id : Option Text
  pub agent_id : Option Text
  pub payload : Text
  pub prev_hash : Text

pub record EventRow : Type 0 where
  pub content : Unhashed
  pub open content use *
  pub hash : Text

-- The events table, and the row of `sqlite_sequence` that counts its insertions.
pub record Db : Type 0 where
  pub rows : List EventRow
  pub counter : ℕ

pub record Anchor : Type 0 where
  pub genesis : Text
  pub seq : ℕ
  pub hash : Text

unfoldable pub genesis : Js → Text
genesis js = js.sha256 (text "aos-kernel:events:v1")

pub nullable : Option Text → Json
nullable none = null
nullable (some t) = str t

unfoldable pub row_json : Unhashed → Json
unfolding nullable
row_json row = obj (
    field (text "agentId") (nullable row.agent_id) (
      field (text "id") (str row.id) (
        field (text "payload") (str row.payload) (
          field (text "prevHash") (str row.prev_hash) (
            field (text "runId") (nullable row.run_id) (
              field (text "seq") (int (pos row.seq))
                (field (text "ts") (str row.ts) (field (text "type") (str row.type) end))))))))

unfoldable pub hash_row : Js → Unhashed → Option Text
unfolding row_json canonical_hash
hash_row js row = canonical_hash js (row_json row)

pub data Reason : Type 0 where
  gap counter_ahead behind_anchor : ℕ → ℕ → Reason
  link content_differs other_genesis : Reason
  rewritten : ℕ → Reason

pub data VerifyResult : Type 0 where
  ok : ℕ → Text → VerifyResult
  failed : ℕ → Reason → VerifyResult

-- The checks on one row, in the loop's order; the outer `none` is a throw of `hashRow`.
unfoldable pub check_row : Js → ℕ → Text → EventRow → Option (Option (ℕ × Reason))
check_row js expected prev row =
    if not (nat_eq row.seq expected)
    then some (some (expected, gap expected row.seq))
    else if not (row.prev_hash == prev)
    then some (some (row.seq, link))
    else do
      recomputed ← hash_row js row.content
      some (if not (recomputed == row.hash) then some (row.seq, content_differs) else none)

-- The loop: a failure, or the hash of the last row.
pub data Walk : Type 0 where
  stopped : ℕ → Reason → Walk
  reached : Text → Walk

unfoldable pub walk : Js → ℕ → Text → List EventRow → Option Walk
walk js i prev [] = some (reached prev)
walk js i prev (row ∷ rest) = elim (check_row js (i + 1) prev row) [
  | none ↦ none
  | some (some (at, reason)) ↦ some (stopped at reason)
  | some none ↦ walk js (i + 1) row.hash rest
]

-- `rows[rows.length - 1]?.seq ?? 0`
unfoldable pub tail_seq : List EventRow → ℕ
tail_seq [] = 0
tail_seq (row ∷ []) = row.seq
tail_seq (row ∷ next ∷ rest) = tail_seq (next ∷ rest)

unfoldable pub row_at_anchor : List EventRow → Anchor → Bool
row_at_anchor rows anchor = elim (get_elem? rows (anchor.seq - 1)) [
  | none ↦ false
  | some row ↦ row.hash == anchor.hash
]

unfoldable pub check_anchor : Js → List EventRow → Text → Option Anchor → VerifyResult
check_anchor js rows head none = ok (length rows) head
check_anchor js rows head (some anchor) =
    if not (anchor.genesis == genesis js)
    then failed 0 other_genesis
    else if ltb (tail_seq rows) anchor.seq
    then failed (tail_seq rows) (behind_anchor (tail_seq rows) anchor.seq)
    else if ltb 0 anchor.seq
    then (if row_at_anchor rows anchor
        then ok (length rows) head
        else failed anchor.seq (rewritten anchor.seq))
    else ok (length rows) head

unfoldable pub after_walk : Js → Db → Option Anchor → Walk → VerifyResult
after_walk js db anchor (stopped at reason) = failed at reason
after_walk js db anchor (reached head) =
    if ltb (tail_seq db.rows) db.counter
    then failed (tail_seq db.rows) (counter_ahead db.counter (tail_seq db.rows))
    else check_anchor js db.rows head anchor

-- `none` is a TypeError of the canonicalizer, on a row that it refuses.
unfoldable pub verify_chain : Js → Db → Option Anchor → Option VerifyResult
verify_chain js db anchor = do w ← walk js 0 (genesis js) db.rows; some (after_walk js db anchor w)
