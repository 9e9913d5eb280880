-- ===== src/Events/Bound.antt =====
-- events/bound.ts: the ceiling on what is logged, in bytes of UTF-8.
pub mod Utf8
pub mod Cut
pub mod Output
use mr_robot.Common.{ℕ, ◌+◌, Bool, [], ◌∷◌, ◌&&◌, ltb, leb, if◌then◌else◌}
use mr_robot.Common.Text.{Text}

abbrev pub max_logged_output : ℕ
max_logged_output = 65536

is_high : ℕ → Bool
is_high u = leb 0xd800 u && leb u 0xdbff

is_low : ℕ → Bool
is_low u = leb 0xdc00 u && leb u 0xdfff

-- A lone surrogate is written as U+FFFD, which has three bytes too.
unit_bytes : ℕ → ℕ
unit_bytes u = if ltb u 0x80 then 1 else if ltb u 0x800 then 2 else 3

-- `Buffer.from(text, 'utf8').length`
unfoldable pub byte_length : Text → ℕ
unfolding is_high is_low unit_bytes
byte_length [] = 0
byte_length (u ∷ []) = unit_bytes u
byte_length (u ∷ v ∷ t) =
    let after_pair = byte_length t in
    let rest = byte_length (v ∷ t) in
    if is_high u && is_low v then 4 + after_pair else unit_bytes u + rest

-- `boundOutput(raw, max).truncated`: the length is that of the redacted text.
unfoldable pub truncated : (Text → Text) → Text → ℕ → Bool
truncated redact raw max = ltb max (byte_length (redact raw))
