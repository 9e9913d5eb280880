-- ===== src/Events/Store/Data.antt =====
-- events/store.ts: the fields of a store, its input, its errors and results.
use mr_robot.Common.{ℕ, ◌≡◌, refl, ◌⊎◌, inl, inr, Bool, Option, List}
use mr_robot.Common.Text.{Text}
use mr_robot.Events.Canonical.{Js, Json}
use mr_robot.Events.Chain.{EventRow, Db, Anchor}

-- What the store uses of its surroundings: the runtime, zod's check of a payload against its type's
-- schema, and the redaction of a string.
pub record Runtime : Type 0 where
  pub js : Js
  pub parse : Text → Json → Option Json
  pub redact : Text → Text

-- What one call of `append` reads: randomUUID, the clock, and the run scope's run.
pub record Now : Type 0 where
  pub id : Text
  pub ts : Text
  pub scope : Option Text

pub record AppendInput : Type 0 where
  pub type : Text
  pub payload : Json
  pub run_id : Option Text
  pub agent_id : Option Text

pub record Options : Type 0 where
  pub read_only : Bool
  pub anchor_every : ℕ
  pub has_head_file : Bool

-- `disk` is the content of the head file, which outlives the store; `delivered` is what the
-- listeners were called with.
pub record Store : Type 0 where
  pub options : Options
  pub db : Db
  pub disk : Option Anchor
  pub trusted : Bool
  pub closed : Bool
  pub listeners : List ℕ
  pub delivered : List (ℕ × EventRow)

pub data StoreError : Type 0 where
  read_only unknown_type writer_claim invalid_payload not_canonical oversized : StoreError
  database_closed chain_broken insert_refused nowhere_to_anchor bad_triggers : StoreError

pub data Result {ℓ} (A : Type ℓ) : Type ℓ where
  done : A → Result A
  threw : StoreError → Result A

pub Result-cases {ℓ} :
    {A : Type ℓ} (r : Result A) → ((a : A) × (r ≡ done a)) ⊎ ((e : StoreError) × (r ≡ threw e))
Result-cases (done a) = inl (a, refl)
Result-cases (threw e) = inr (e, refl)
