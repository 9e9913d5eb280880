-- ===== src/Events/Projections.antt =====
-- events/projections.ts: what was open when the process stopped, projected from the log. `JSON.parse` is the
-- parameter of `parse`; a cost in a row is a non-negative integer, by the schema of its type.
pub mod Replay
pub mod Recover
pub mod Filed
pub mod Closing
pub mod Listed
pub mod Settled
use mr_robot.Common.{
  ℕ, ◌+◌, ◌≡◌, Bool, true, false, not, ◌&&◌, ◌||◌, Option, none, some, get_or, List, [], ◌∷◌, ◌++◌,
  map, if◌then◌else◌,
}
use mr_robot.Common.Int.{ℤ, pos, negsuc}
use mr_robot.Common.Text.{Text, text, ◌==◌}
use mr_robot.Common.Map.{Map, text_eq, get, set, delete, values, has}
use mr_robot.Common.Sort.{sort_by}
use mr_robot.Events.Canonical.{
  Json, Items, Fields, null, undef, fraction, exotic, unsupported, bool, str, int, arr, obj, nil,
  cons, end, field,
}
use mr_robot.Events.Chain.{Unhashed, EventRow}

-- OpenRun, and OrphanRun once it is reported.
pub record OpenRun : Type 0 where
  pub run_id : Text
  pub agent_id : Option Text
  pub started_at : Text
  pub last_ts : Text
  pub last_seq : ℕ
  pub llm_calls : ℕ
  pub tool_calls : ℕ
  pub cost_micro_usd : ℕ

pub record UnresolvedApproval : Type 0 where
  pub approval_id : Text
  pub run_id : Option Text
  pub tool_ref : Text
  pub risk : Text
  pub requested_at : Text
  pub expires_at : Text
  pub seq : ℕ

pub record UnreleasedHold : Type 0 where
  pub hold_id : Text
  pub run_id : Option Text
  pub tool_ref : Text
  pub reason : Text
  pub held_at : Text
  pub seq : ℕ

pub data Status : Type 0 where
  status_ok status_error status_killed status_denied : Status

pub data Taint : Type 0 where
  clean tainted : Taint

pub record DanglingDelegation : Type 0 where
  pub parent_run_id : Text
  pub child_run_id : Text
  pub status : Status
  pub cost_micro_usd : ℕ
  pub taint : Taint
  pub seq : ℕ

pub record Recovery : Type 0 where
  pub orphan_runs : List OpenRun
  pub unresolved_approvals : List UnresolvedApproval
  pub unreleased_holds : List UnreleasedHold
  pub dangling_delegations : List DanglingDelegation

unfoldable pub is_empty {ℓ} : {A : Type ℓ} → List A → Bool
is_empty [] = true
is_empty (x ∷ xs) = false

unfoldable pub is_clean : Recovery → Bool
is_clean r =
    is_empty r.orphan_runs
    && is_empty r.unresolved_approvals
    && is_empty r.unreleased_holds
    && is_empty r.dangling_delegations

-- The properties of a parsed payload; what is no object has none that are read.
unfoldable pub parse : (Text → Option Json) → Text → Fields
parse json_parse payload = elim (json_parse payload) [
  | none ↦ end
  | some v ↦ elim v [ obj fs ↦ fs | _ ↦ end ]
]

unfoldable pub field_at : Text → Fields → Json
field_at key end = undef
field_at key (field k v fs) = let rest = field_at key fs in if k == key then v else rest

unfoldable pub number_at : Fields → Text → ℕ
number_at payload key = elim (field_at key payload) [
  | int n ↦ elim n [ pos m ↦ m | negsuc m ↦ 0 ]
  | _ ↦ 0
]

unfoldable pub string_at : Fields → Text → Text → Text
string_at payload key fallback = elim (field_at key payload) [ str s ↦ s | _ ↦ fallback ]

-- `value ?? ''`
unfoldable pub or_blank : Option Text → Text
or_blank none = []
or_blank (some t) = t

pub record Admission : Type 0 where
  pub parent_run_id : Text
  pub seq : ℕ

pub record Finished : Type 0 where
  pub status : Text
  pub cost_micro_usd : ℕ

-- The maps and sets that the loop fills.
pub record Scan : Type 0 where
  pub opened : Map Text OpenRun
  pub approvals : Map Text UnresolvedApproval
  pub holds : Map Text UnreleasedHold
  pub admitted : Map Text Admission
  pub finished : Map Text Finished
  pub started_tainted : List Text
  pub touched_untrusted : List Text

abbrev pub nothing : Scan
nothing = record {
  opened = [];
  approvals = [];
  holds = [];
  admitted = [];
  finished = [];
  started_tainted = [];
  touched_untrusted = [];
}

-- A run of the map is changed in place, if it is there.
unfoldable pub amend : Option Text → (OpenRun → OpenRun) → Map Text OpenRun → Map Text OpenRun
amend none f m = m
amend (some id) f m = elim (get id m) [ none ↦ m | some run ↦ set id (f run) m ]

unfoldable pub seen_in : EventRow → OpenRun → OpenRun
seen_in row run = record run {
  last_ts = row.ts;
  last_seq = row.seq;
  agent_id = elim row.agent_id [ none ↦ run.agent_id | some a ↦ some a ];
}

unfoldable pub touch : Option Text → List Text → List Text
touch none s = s
touch (some id) s = id ∷ s
