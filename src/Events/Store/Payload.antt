-- ===== src/Events/Store/Payload.antt =====
-- events/store.ts: the payload on its way into a row.
use mr_robot.Common.{none, some, if◌then◌else◌}
use mr_robot.Common.Text.{Text}
use mr_robot.Events.Canonical.{
  Json, Items, Fields, null, undef, fraction, exotic, unsupported, bool, str, int, arr, obj, nil,
  cons, end, field, canonicalize,
}
use mr_robot.Events.Redact.{redact_value}
use mr_robot.Events.Bound.{max_logged_output, truncated}
use mr_robot.Events.Store.Data.{
  Runtime, Result, done, threw, invalid_payload, not_canonical, oversized,
}

-- `stripUndefined`: keys whose value is undefined are dropped, arrays keep their shape.
unfoldable mutual
  pub strip_undefined : Json → Json
  strip_undefined null = null
  strip_undefined undef = undef
  strip_undefined fraction = fraction
  strip_undefined exotic = exotic
  strip_undefined unsupported = unsupported
  strip_undefined (bool b) = bool b
  strip_undefined (str s) = str s
  strip_undefined (int n) = int n
  strip_undefined (arr xs) = arr (strip_items xs)
  strip_undefined (obj fs) = obj (strip_fields fs)

  pub strip_items : Items → Items
  strip_items nil = nil
  strip_items (cons x xs) = cons (strip_undefined x) (strip_items xs)

  pub strip_fields : Fields → Fields
  strip_fields end = end
  strip_fields (field k undef fs) = strip_fields fs
  strip_fields (field k v fs) = field k (strip_undefined v) (strip_fields fs)

-- The text that is hashed and stored, or the reason that the payload is refused.
unfoldable pub payload_text : Runtime → Text → Json → Result Text
payload_text rt type payload = elim (rt.parse type payload) [
  | none ↦ threw invalid_payload
  | some parsed ↦ elim (canonicalize rt.js (redact_value rt.redact (strip_undefined parsed))) [
    | none ↦ threw not_canonical
    | some t ↦ if truncated rt.redact t max_logged_output then threw oversized else done t
  ]
]
