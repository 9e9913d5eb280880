-- ===== src/Events/Canonical.antt =====
-- events/canonical.ts: canonical JSON, and the digests made from it. What the JavaScript runtime
-- and node:crypto supply (`JSON.stringify` of a string, `String` of an integer, SHA-256) is the
-- parameter `Js`; `JsLaws` states what is relied on.
mod Sort
use Sort.{sort_fields}
use mr_robot.Common.{
  ℕ, zero, suc, ◌-◌, ◌^◌, ◌≡◌, Bool, true, false, ◌&&◌, ◌||◌, Option, none, some, List, [], ◌∷◌,
  ◌++◌, leb, if◌then◌else◌,
}
use mr_robot.Common.Int.{ℤ, abs}
use mr_robot.Common.Partial.{◌>>=◌}
use mr_robot.Common.Text.{Text, text}

-- The values that reach `canonicalize`, with those that it refuses: a number that is no integer, an
-- object with another prototype, `undefined`, and a function, a symbol or a bigint.
mutual
  pub data Json : Type 0 where
    null undef fraction exotic unsupported : Json
    bool : Bool → Json
    str : Text → Json
    int : ℤ → Json
    arr : Items → Json
    obj : Fields → Json

  pub data Items : Type 0 where
    nil : Items
    cons : Json → Items → Items

  pub data Fields : Type 0 where
    end : Fields
    field : Text → Json → Fields → Fields

pub record Js : Type 0 where
  pub stringify : Text → Text
  pub decimal : ℤ → Text
  pub sha256 : Text → Text

-- A quoted string begins with a quotation mark and shows where it ends, a decimal shows it by the
-- comma behind it, and no two texts that the kernel hashes collide.
pub record JsLaws (js : Js) : Type 0 where
  pub stringify_quoted : (s : Text) → (t : Text) × (js.stringify s ≡ b'"' ∷ t)
  pub stringify_delimits :
      (s t u v : Text) → js.stringify s ++ u ≡ js.stringify t ++ v → (s ≡ t) × (u ≡ v)
  pub decimal_delimits :
      (a b : ℤ) (u v : Text)
      → js.decimal a ++ b',' ∷ u ≡ js.decimal b ++ b',' ∷ v
      → (a ≡ b) × (u ≡ v)
  pub sha256_collision_free : (s t : Text) → js.sha256 s ≡ js.sha256 t → s ≡ t

is_high : ℕ → Bool
is_high u = leb 0xd800 u && leb u 0xdbff

is_low : ℕ → Bool
is_low u = leb 0xdc00 u && leb u 0xdfff

-- LONE_SURROGATE.test: a high surrogate with no low one behind it, or a low one with no high one
-- before it.
unfoldable pub lone_surrogate : Text → Bool
unfolding is_high is_low
lone_surrogate [] = false
lone_surrogate (u ∷ []) = is_high u || is_low u
lone_surrogate (u ∷ v ∷ t) =
    let after_pair = lone_surrogate t in
    let rest = lone_surrogate (v ∷ t) in
    if is_high u then (if is_low v then after_pair else true) else if is_low u then true else rest

abbrev pub max_safe : ℕ
max_safe = 2 ^ 53 - 1

-- `parts.join(',')`
unfoldable pub join : List Text → Text
join [] = []
join (p ∷ []) = p
join (p ∷ q ∷ ps) = p ++ b',' ∷ join (q ∷ ps)

canonical_string : Js → Text → Option Text
unfolding lone_surrogate
canonical_string js s = if lone_surrogate s then none else some (js.stringify s)

canonical_integer : Js → ℤ → Option Text
canonical_integer js n = if leb (abs n) max_safe then some (js.decimal n) else none

map_parts : List (Text × Text) → List Text
map_parts [] = []
map_parts (p ∷ ps) = p.1 ∷ map_parts ps

braced : List (Text × Text) → Text
unfolding map_parts sort_fields join
braced ps = b'{' ∷ join (map_parts (sort_fields ps)) ++ text "}"

-- `none` is a thrown TypeError. A part of an object keeps its key for the sort.
unfoldable mutual
  unfolding canonical_string canonical_integer braced join

  pub canonicalize : Js → Json → Option Text
  canonicalize js null = some (text "null")
  canonicalize js undef = none
  canonicalize js fraction = none
  canonicalize js exotic = none
  canonicalize js unsupported = none
  canonicalize js (bool true) = some (text "true")
  canonicalize js (bool false) = some (text "false")
  canonicalize js (str s) = canonical_string js s
  canonicalize js (int n) = canonical_integer js n
  canonicalize js (arr xs) = do ps ← canonicalize_items js xs; some (b'[' ∷ join ps ++ text "]")
  canonicalize js (obj fs) = do ps ← canonicalize_fields js fs; some (braced ps)

  pub canonicalize_items : Js → Items → Option (List Text)
  canonicalize_items js nil = some []
  canonicalize_items js (cons x xs) = do
    p ← canonicalize js x
    ps ← canonicalize_items js xs
    some (p ∷ ps)

  pub canonicalize_fields : Js → Fields → Option (List (Text × Text))
  canonicalize_fields js end = some []
  canonicalize_fields js (field k v fs) = do
    key ← canonical_string js k
    value ← canonicalize js v
    ps ← canonicalize_fields js fs
    some ((k, key ++ b':' ∷ value) ∷ ps)

-- `canonicalHash`
unfoldable pub canonical_hash : Js → Json → Option Text
unfolding canonicalize
canonical_hash js v = do t ← canonicalize js v; some (js.sha256 t)
