-- ===== src/Policy/Gate.antt =====
-- policy/gate.ts: one pure function from a proposed tool call to a verdict. The reasons are data, with
-- the values that the code writes into its message. Arguments are values of JSON.parse: the model's `exotic`,
-- an object that is no plain one, does not occur among them, and none of its values is searched.
pub mod Laws
pub mod Paths
pub mod Allowed
use mr_robot.Common.{
  ℕ, ◌≡◌, Bool, true, false, not, ◌&&◌, ◌||◌, Option, none, some, List, [], ◌∷◌, map,
  ◌==◌ as nat_eq, if◌then◌else◌,
}
use mr_robot.Common.Text.{Text, text, ◌==◌, is_prefix, lower}
use mr_robot.Events.Canonical.{
  Json, Items, Fields, null, undef, fraction, exotic, unsupported, bool, str, int, arr, obj, nil,
  cons, end, field,
}

pub data Exposure : Type 0 where
  disabled kernel_only agent : Exposure

pub data Risk : Type 0 where
  read write irreversible : Risk

pub data Taint : Type 0 where
  clean tainted : Taint

pub data Decision : Type 0 where
  allow needs_human quarantine deny : Decision

pub data Reason : Type 0 where
  not_exposed not_in_manifest protected_path no_namespace other_namespace : Reason
  always_needs_human tainted_run quarantined allowed : Reason

pub record View : Type 0 where
  pub exposure : Exposure
  pub risk : Risk
  pub taints : Bool
  pub quarantine : Bool
  pub namespace_arg : Option Text

pub record Scope : Type 0 where
  pub run_id : Text
  pub agent_id : Text
  pub taint : Taint
  pub project_id : Option Text

pub record GateInput : Type 0 where
  pub view : View
  pub scope : Scope
  pub manifest_allows : Bool
  pub tool_ref : Text
  pub args : Fields

pub record Verdict : Type 0 where
  pub decision : Decision
  pub reason : Reason

unfoldable pub is_separator : ℕ → Bool
is_separator u = nat_eq u b'/' || nat_eq u b'\\'

-- `([\\/]|$)`
ends_segment : Text → Bool
unfolding is_separator
ends_segment [] = true
ends_segment (u ∷ t) = is_separator u

behind : Text → Text → Text
behind [] t = t
behind (u ∷ s) [] = []
behind (u ∷ s) (v ∷ t) = behind s t

-- `souls([\\/]|$)|AGENTS\.md$`, at a place of the folded text.
unfoldable pub names_protected : Text → Bool
unfolding ends_segment behind is_prefix
names_protected t =
    (is_prefix (text "souls") t && ends_segment (behind (text "souls") t)) || t == text "agents.md"

-- `boundary` is `(^|[\\/])`.
unfoldable pub protected_from : Bool → Text → Bool
protected_from boundary [] = false
protected_from boundary (u ∷ t) =
    (boundary && names_protected (u ∷ t)) || protected_from (is_separator u) t

-- PROTECTED_PATH.test
unfoldable pub is_protected : Text → Bool
is_protected s = protected_from true (map lower s)

unfoldable mutual
  unfolding is_protected

  pub mentions_protected : Json → Bool
  mentions_protected null = false
  mentions_protected undef = false
  mentions_protected fraction = false
  mentions_protected exotic = false
  mentions_protected unsupported = false
  mentions_protected (bool b) = false
  mentions_protected (str s) = is_protected s
  mentions_protected (int n) = false
  mentions_protected (arr xs) = mentions_items xs
  mentions_protected (obj fs) = mentions_fields fs

  pub mentions_items : Items → Bool
  mentions_items nil = false
  mentions_items (cons x xs) = mentions_protected x || mentions_items xs

  pub mentions_fields : Fields → Bool
  mentions_fields end = false
  mentions_fields (field k v fs) = mentions_protected v || mentions_fields fs

-- `args[pinned] !== scope.projectId`, negated.
unfoldable pub addresses : Text → Text → Fields → Bool
addresses pinned project end = false
addresses pinned project (field k (str s) fs) =
    if k == pinned then s == project else addresses pinned project fs
addresses pinned project (field k v fs) = if k == pinned then false else addresses pinned project fs

-- What the namespace rule refuses, if it does.
unfoldable pub namespace_refusal : Option Text → Option Text → Fields → Option Reason
namespace_refusal none project args = none
namespace_refusal (some pinned) project args =
    if pinned == text "none" then none else elim project [
      | none ↦ some no_namespace
      | some p ↦ if addresses pinned p args then none else some other_namespace
    ]

abbrev pub is_agent : Exposure → Bool
is_agent agent = true
is_agent _ = false

abbrev pub is_irreversible : Risk → Bool
is_irreversible irreversible = true
is_irreversible _ = false

abbrev pub is_read : Risk → Bool
is_read read = true
is_read _ = false

abbrev pub is_tainted : Taint → Bool
is_tainted tainted = true
is_tainted clean = false

-- The rules that a human can lift, and those behind them.
unfoldable pub risk_verdict : View → Taint → Verdict
risk_verdict view taint =
    if is_irreversible view.risk
    then record { decision = needs_human; reason = always_needs_human }
    else if is_tainted taint && not (is_read view.risk)
    then record { decision = needs_human; reason = tainted_run }
    else if view.quarantine
    then record { decision = Decision.quarantine; reason = quarantined }
    else record { decision = allow; reason = allowed }

-- The rules in their order, on an input that has been parsed.
unfoldable pub rule : GateInput → Verdict
rule input =
    if not (is_agent input.view.exposure)
    then record { decision = deny; reason = not_exposed }
    else if not input.manifest_allows
    then record { decision = deny; reason = not_in_manifest }
    else if mentions_fields input.args
    then record { decision = deny; reason = protected_path }
    else elim (namespace_refusal input.view.namespace_arg input.scope.project_id input.args) [
      | some why ↦ record { decision = deny; reason = why }
      | none ↦ risk_verdict input.view input.scope.taint
    ]

is_empty : Text → Bool
is_empty [] = true
is_empty (u ∷ t) = false

is_empty_option : Option Text → Bool
unfolding is_empty
is_empty_option none = false
is_empty_option (some t) = is_empty t

-- `GateInput.parse`: the strings are not empty. Its other conditions are the types of the model.
unfoldable pub parses : GateInput → Bool
unfolding is_empty is_empty_option
parses input = not (
    is_empty input.scope.run_id
    || is_empty input.scope.agent_id
    || is_empty input.tool_ref
    || is_empty_option input.view.namespace_arg
    || is_empty_option input.scope.project_id)

-- `none` is a thrown ZodError.
unfoldable pub decide : GateInput → Option Verdict
decide input = if parses input then some (rule input) else none
