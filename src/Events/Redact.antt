-- ===== src/Events/Redact.antt =====
-- events/redact.ts: scrubbing values before they are hashed. The credential shapes of
-- TOKEN_PATTERNS are regular expressions: replacing them is the parameter `scrub`.
use mr_robot.Common.{
  ℕ, zero, suc, ◌-◌, Bool, true, false, ◌||◌, List, [], ◌∷◌, ◌++◌, ltb, leb, length, map,
  if◌then◌else◌,
}
use mr_robot.Common.Text.{Text, text, ◌==◌, is_prefix, lower}
use mr_robot.Events.Canonical.{
  Json, Items, Fields, null, undef, fraction, exotic, unsupported, bool, str, int, arr, obj, nil,
  cons, end, field,
}

abbrev pub censor : Text
censor = text "[REDACTED]"

abbrev pub min_mask_length : ℕ
min_mask_length = 8

unfoldable pub contains : List Text → Text → Bool
contains [] t = false
contains (s ∷ l) t = s == t || contains l t

-- The registered values, in the order of a JavaScript Set.
unfoldable pub register : List Text → Text → List Text × Bool
register values v =
    if ltb (length v) min_mask_length
    then (values, false)
    else (if contains values v then values else values ++ v ∷ [], true)

-- `s.split(v).join(CENSOR)`; `skip` counts the units of a match that are still to be passed over.
unfoldable pub replace_from : Text → ℕ → Text → Text
replace_from v skip [] = []
replace_from v (suc k) (c ∷ s) = replace_from v k s
replace_from v zero (c ∷ s) =
    let matched = replace_from v (length v - 1) s in
    let plain = replace_from v 0 s in if is_prefix v (c ∷ s) then censor ++ matched else c ∷ plain

-- `sort((a, b) => b.length - a.length)`, which is stable.
insert_longer : Text → List Text → List Text
insert_longer v [] = v ∷ []
insert_longer v (w ∷ l) =
    let rest = insert_longer v l in if leb (length w) (length v) then v ∷ w ∷ l else w ∷ rest

unfoldable pub longest_first : List Text → List Text
unfolding insert_longer
longest_first [] = []
longest_first (v ∷ l) = insert_longer v (longest_first l)

replace_each : List Text → Text → Text
replace_each [] s = s
replace_each (v ∷ l) s = replace_each l (replace_from v 0 s)

unfoldable pub apply_mask : List Text → Text → Text
unfolding replace_each
apply_mask values s = replace_each (longest_first values) s

unfoldable pub redact_string : (Text → Text) → List Text → Text → Text
redact_string scrub values s = scrub (apply_mask values s)

abbrev denied : List Text
denied =
    text "authorization"
    ∷ text "proxy-authorization"
    ∷ text "cookie"
    ∷ text "set-cookie"
    ∷ text "apikey"
    ∷ text "api_key"
    ∷ text "api-key"
    ∷ text "x-api-key"
    ∷ text "token"
    ∷ text "access_token"
    ∷ text "refresh_token"
    ∷ text "id_token"
    ∷ text "secret"
    ∷ text "client_secret"
    ∷ text "password"
    ∷ text "passwd"
    ∷ text "private_key"
    ∷ text "credential"
    ∷ text "credentials"
    ∷ []

-- DENY_KEYS.test: the anchored alternation, without regard to case.
unfoldable pub deny_key : Text → Bool
unfolding contains
deny_key k = contains denied (map lower k)

unfoldable mutual
  pub redact_value : (Text → Text) → Json → Json
  redact_value redact null = null
  redact_value redact undef = undef
  redact_value redact fraction = fraction
  redact_value redact exotic = exotic
  redact_value redact unsupported = unsupported
  redact_value redact (bool b) = bool b
  redact_value redact (str s) = str (redact s)
  redact_value redact (int n) = int n
  redact_value redact (arr xs) = arr (redact_items redact xs)
  redact_value redact (obj fs) = obj (redact_fields redact fs)

  pub redact_items : (Text → Text) → Items → Items
  redact_items redact nil = nil
  redact_items redact (cons x xs) = cons (redact_value redact x) (redact_items redact xs)

  pub redact_fields : (Text → Text) → Fields → Fields
  redact_fields redact end = end
  redact_fields redact (field k v fs) =
      field k (if deny_key k then str censor else redact_value redact v) (redact_fields redact fs)
