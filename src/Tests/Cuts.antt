-- ===== src/Tests/Cuts.antt =====
-- Bounded output at a text whose last letter has two bytes.
use mr_robot.Common.{◌+◌, ◌≤◌, ◌≡◌, ◌⊎◌, refl, [], ◌∷◌, ◌++◌}
use mr_robot.Common.Text.{Text}
use mr_robot.Events.Bound.Utf8.{
  encode, utf8_cut_point, kept_bytes, back, is_continuation, is_high, unit_bytes,
}
use mr_robot.Events.Bound.Cut.{cut_keeps_points_whole}

abbrev word : Text
word = 0x61 ∷ 0xe9 ∷ []

letter_dropped : kept_bytes (encode word) 2 ≡ 0x61 ∷ []
unfolding kept_bytes utf8_cut_point encode is_high unit_bytes back is_continuation
letter_dropped = refl

cut_keeps_points_whole_example :
    (p : Text) × (q : Text) × (word ≡ p ++ q)
    × (kept_bytes (encode word) 2 ≡ encode p)
    × (utf8_cut_point (encode word) 2 ≤ 2)
    × ((q ≡ []) ⊎ (2 ≤ utf8_cut_point (encode word) 2 + 3))
cut_keeps_points_whole_example = cut_keeps_points_whole word 2
