-- ===== src/Runtime/Cron/Key.antt =====
-- runtime/cron.ts: `minuteKey`, the local minute that a fire is keyed by.
use mr_robot.Common.{ℕ, zero, suc, ◌+◌, ◌-◌, ◌/◌, ◌%◌, [], ◌∷◌, ◌++◌, length, ltb, if◌then◌else◌}
use mr_robot.Common.Text.{Text}
use mr_robot.Runtime.Cron.Match.{LocalMinute}

-- `String(n)`; a number has no more digits than its value and one.
unfoldable pub digits : ℕ → ℕ → Text
digits zero n = []
digits (suc fuel) n =
    let rest = digits fuel (n / 10) in
    if ltb n 10 then (b'0' + n) ∷ [] else rest ++ (b'0' + n % 10) ∷ []

unfoldable pub zeros : ℕ → Text
zeros zero = []
zeros (suc n) = b'0' ∷ zeros n

-- `String(n).padStart(w, '0')`
unfoldable pub padded : ℕ → ℕ → Text
padded w n = zeros (w - length (digits (suc n) n)) ++ digits (suc n) n

-- A Date in its local fields.
pub record LocalDate : Type 0 where
  pub year : ℕ
  pub minute : LocalMinute

unfoldable pub minute_key : LocalDate → Text
minute_key at =
    padded 4 at.year
    ++ b'-' ∷ padded 2 (at.minute.month + 1)
    ++ b'-' ∷ padded 2 at.minute.date
    ++ b'T' ∷ padded 2 at.minute.hours
    ++ b':' ∷ padded 2 at.minute.minutes
