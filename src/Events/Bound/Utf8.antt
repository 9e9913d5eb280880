-- ===== src/Events/Bound/Utf8.antt =====
-- events/bound.ts: the bytes of a text, and `utf8CutPoint` on them.
use mr_robot.Common.{
  ℕ, zero, suc, ◌+◌, ◌-◌, ◌*◌, ◌/◌, ◌%◌, Bool, ◌&&◌, none, some, List, [], ◌∷◌, ◌++◌, length, take,
  get_elem?, ltb, leb, if◌then◌else◌,
}
use mr_robot.Common.Text.{Text}

unfoldable pub is_high : ℕ → Bool
is_high u = leb 0xd800 u && leb u 0xdbff

unfoldable pub is_low : ℕ → Bool
is_low u = leb 0xdc00 u && leb u 0xdfff

-- A unit that is half of no pair. A lone surrogate is written as U+FFFD.
unfoldable pub unit_bytes : ℕ → List ℕ
unit_bytes u =
    if ltb u 0x80
    then u ∷ []
    else if ltb u 0x800
    then (0xc0 + u / 64) ∷ (0x80 + u % 64) ∷ []
    else if leb 0xd800 u && leb u 0xdfff
    then 0xef ∷ 0xbf ∷ 0xbd ∷ []
    else (0xe0 + u / 4096) ∷ (0x80 + u / 64 % 64) ∷ (0x80 + u % 64) ∷ []

abbrev pub code_point : ℕ → ℕ → ℕ
code_point high low = 0x10000 + (high - 0xd800) * 1024 + (low - 0xdc00)

unfoldable pub pair_bytes : ℕ → ℕ → List ℕ
pair_bytes high low =
    (0xf0 + code_point high low / 262144)
    ∷ (0x80 + code_point high low / 4096 % 64)
    ∷ (0x80 + code_point high low / 64 % 64)
    ∷ (0x80 + code_point high low % 64)
    ∷ []

-- `Buffer.from(text, 'utf8')`
unfoldable pub encode : Text → List ℕ
encode [] = []
encode (u ∷ []) = unit_bytes u
encode (u ∷ v ∷ t) =
    let after_pair = encode t in
    let rest = encode (v ∷ t) in
    if is_high u && is_low v then pair_bytes u v ++ after_pair else unit_bytes u ++ rest

-- `(b & 0xc0) === 0x80`, of a byte.
unfoldable pub is_continuation : ℕ → Bool
is_continuation b = leb 0x80 b && ltb b 0xc0

-- The loop of `utf8CutPoint`, back from `end`.
unfoldable pub back : List ℕ → ℕ → ℕ
back buf zero = 0
back buf (suc end) =
    let before = back buf end in
    elim (get_elem? buf (suc end)) [
      | none ↦ suc end
      | some b ↦ if is_continuation b then before else suc end
    ]

-- `utf8CutPoint`
unfoldable pub utf8_cut_point : List ℕ → ℕ → ℕ
utf8_cut_point buf max = if leb (length buf) max then length buf else back buf max

-- `buf.subarray(0, utf8CutPoint(buf, max))`
unfoldable pub kept_bytes : List ℕ → ℕ → List ℕ
kept_bytes buf max = take (utf8_cut_point buf max) buf
