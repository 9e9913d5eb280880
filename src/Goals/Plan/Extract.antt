-- ===== src/Goals/Plan/Extract.antt =====
-- extractJson and looksLikePlan of goals/plan.ts: the first JSON object of a message, by a fence or by
-- a scan of its braces.
use mr_robot.Common.{
  ℕ, ◌+◌, ◌-◌, Bool, true, false, not, ◌&&◌, ◌||◌, Option, none, some, [], ◌∷◌, drop, ◌==◌,
  if◌then◌else◌,
}
use mr_robot.Common.Text.{Text, text, is_prefix}
use mr_robot.Runtime.Cron.Match.{is_space, trim}

abbrev pub tick : ℕ
tick = 96

-- The place of a scan: how many braces are open, and what it is within.
pub record Scan : Type 0 where
  pub depth : ℕ
  pub in_string : Bool
  pub escaped : Bool

-- The body of the loop for one unit, when it does not return.
unfoldable pub step_over : Scan → ℕ → Scan
step_over s ch =
    if s.escaped
    then record s { escaped = false }
    else if ch == b'\\'
    then record s { escaped = true }
    else if ch == b'"'
    then record s { in_string = not s.in_string }
    else if s.in_string
    then s
    else if ch == b'{'
    then record s { depth = s.depth + 1 }
    else if ch == b'}'
    then record s { depth = s.depth - 1 }
    else s

-- Whether the loop returns at the unit: `depth === 0` after a brace that closes.
unfoldable pub closes : Scan → ℕ → Bool
closes s ch = not s.escaped && not s.in_string && ch == b'}' && s.depth - 1 == 0

-- The units up to where the loop returns.
unfoldable pub scan : Scan → Text → Option Text
scan s [] = none
scan s (ch ∷ rest) =
    let more = scan (step_over s ch) rest in
    if closes s ch then some (ch ∷ []) else elim more [ none ↦ none | some t ↦ some (ch ∷ t) ]

-- `text.indexOf('{')` and the loop from there.
unfoldable pub from_brace : Text → Option Text
from_brace [] = none
from_brace (ch ∷ rest) =
    let later = from_brace rest in
    if ch == b'{'
    then scan (record { depth = 0; in_string = false; escaped = false }) (ch ∷ rest)
    else later

abbrev pub fence : Text
fence = tick ∷ tick ∷ tick ∷ []

-- `([\s\S]*?)` up to the fence that closes.
unfoldable pub until_fence : Text → Option Text
until_fence [] = none
until_fence (ch ∷ rest) =
    let more = until_fence rest in
    if is_prefix fence (ch ∷ rest)
    then some []
    else elim more [ none ↦ none | some t ↦ some (ch ∷ t) ]

-- `\s*\n`: what stands after the last line feed of the white space.
unfoldable pub after_line : Text → Option Text
after_line [] = none
after_line (ch ∷ rest) =
    let more = after_line rest in
    if is_space ch
    then elim more [ some t ↦ some t | none ↦ if ch == 10 then some rest else none ]
    else none

-- What the fence captures when it opens here.
unfoldable pub fenced_here : Text → Option Text
fenced_here rest =
    let body = drop 3 rest in
    elim (after_line (if is_prefix (text "json") body then drop 4 body else body)) [
      | none ↦ none
      | some inside ↦ until_fence inside
    ]

-- The fenced block, from the first place that opens one.
unfoldable pub fenced : Text → Option Text
fenced [] = none
fenced (ch ∷ rest) =
    let later = fenced rest in
    if is_prefix fence (ch ∷ rest)
    then elim (fenced_here (ch ∷ rest)) [ some body ↦ some body | none ↦ later ]
    else later

-- `extractJson`
unfoldable pub extract_json : Text → Option Text
extract_json message = elim (fenced message) [
  | some body ↦ some (trim body)
  | none ↦ from_brace message
]

unfoldable pub has_part : Text → Text → Bool
has_part part [] = is_prefix part []
has_part part (ch ∷ rest) = is_prefix part (ch ∷ rest) || has_part part rest

-- `looksLikePlan`
unfoldable pub looks_like_plan : Text → Bool
looks_like_plan message = elim (extract_json message) [
  | none ↦ false
  | some json ↦ has_part (text "\"objective\"") json && has_part (text "\"milestones\"") json
]
