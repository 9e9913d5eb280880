-- ===== src/Events/Canonical/Sort.antt =====
-- `Object.keys(record).sort()`: keys in the order of their UTF-16 code units.
use mr_robot.Common.{Bool, true, false, List, [], ◌∷◌, ltb, ◌==◌, if◌then◌else◌}
use mr_robot.Common.Text.{Text}

pub text_le : Text → Text → Bool
text_le [] t = true
text_le (a ∷ s) [] = false
text_le (a ∷ s) (b ∷ t) =
    let rest = text_le s t in if ltb a b then true else if a == b then rest else false

insert_field : Text × Text → List (Text × Text) → List (Text × Text)
insert_field p [] = p ∷ []
insert_field p (q ∷ ps) =
    let rest = insert_field p ps in if text_le p.0 q.0 then p ∷ q ∷ ps else q ∷ rest

unfoldable pub sort_fields : List (Text × Text) → List (Text × Text)
unfolding insert_field text_le
sort_fields [] = []
sort_fields (p ∷ ps) = insert_field p (sort_fields ps)
