-- ===== src/Runtime/Cron/Distinct.antt =====
-- Two local minutes have one key only if they are one: runtime/cron.ts, `minuteKey`.
use mathlib.Core.List.{append_assoc}
use mr_robot.Common.{
  ℕ, zero, suc, ◌+◌, ◌-◌, ◌/◌, ◌%◌, ◌<◌, ◌≤◌, ◌≡◌, refl, sym, ap, ◌∙◌, inl, inr, [], ◌∷◌, ◌++◌,
  length, length-append, ltb, ltb→lt, arith, Bool-cases,
}
use mr_robot.Common.Text.{Text}
use mr_robot.Runtime.Cron.Key.{digits, zeros, padded, LocalDate, minute_key}

digits_fuel : (f g n : ℕ) → n < f → n < g → digits f n ≡ digits g n
unfolding digits
digits_fuel zero g n h k = elim h [ ]
digits_fuel (suc f) zero n h k = elim k [ ]
digits_fuel (suc f) (suc g) n h k = ground (arith, digits_fuel f g (n / 10))

small_digits : (n : ℕ) → n < 10 → digits (suc n) n ≡ (b'0' + n) ∷ []
unfolding digits
small_digits n h = ground arith

large_digits :
    (n : ℕ) → 10 ≤ n → digits (suc n) n ≡ digits (suc (n / 10)) (n / 10) ++ (b'0' + n % 10) ∷ []
unfolding digits
large_digits n h = ground (arith, digits_fuel n (suc (n / 10)) (n / 10))

zeros_last : (w : ℕ) → zeros w ++ b'0' ∷ [] ≡ zeros (suc w)
unfolding zeros
zeros_last zero = refl
zeros_last (suc w) = ap (λ l. b'0' ∷ l) (zeros_last w)

padded_last : (w n : ℕ) → padded (suc (suc w)) n ≡ padded (suc w) (n / 10) ++ (b'0' + n % 10) ∷ []
unfolding padded
padded_last w n = elim (Bool-cases (ltb n 10)) [
  | inl small ↦
      let lt : n < 10 = omega (arith, ltb→lt n 10 small) in
      let none : n / 10 ≡ 0 = omega arith in
      let same : n % 10 ≡ n = omega arith in
      let one : suc (suc w) - 1 ≡ suc w = omega arith in
      let less : suc w - 1 ≡ w = omega arith in
      rw (small_digits n lt, none, same, small_digits 0 (omega arith), one, less)
        (ap (λ l. l ++ (b'0' + n) ∷ []) (sym (zeros_last w)))
  | inr large ↦
      let le : 10 ≤ n = ground arith in
      let fewer : suc (suc w) - (length (digits (suc (n / 10)) (n / 10)) + 1)
          ≡ suc w - length (digits (suc (n / 10)) (n / 10)) =
        omega arith in
      rw
        (
          large_digits n le,
          length-append (digits (suc (n / 10)) (n / 10)) ((b'0' + n % 10) ∷ []),
          fewer,
        )
        (sym (
          append_assoc (zeros (suc w - length (digits (suc (n / 10)) (n / 10))))
            (digits (suc (n / 10)) (n / 10)) ((b'0' + n % 10) ∷ [])))
]

one_digit : (n : ℕ) → n < 10 → padded 1 n ≡ (b'0' + n) ∷ []
unfolding padded zeros
one_digit n h = rw (small_digits n h)

two_digits : (n : ℕ) → n < 100 → padded 2 n ≡ (b'0' + n / 10) ∷ (b'0' + n % 10) ∷ []
two_digits n h =
    padded_last 0 n ∙ ap (λ l. l ++ (b'0' + n % 10) ∷ []) (one_digit (n / 10) (omega arith))

four_digits :
    (n : ℕ)
    → n < 10000
    → padded 4 n
      ≡ (b'0' + n / 10 / 10 / 10)
        ∷ (b'0' + n / 10 / 10 % 10)
        ∷ (b'0' + n / 10 % 10)
        ∷ (b'0' + n % 10)
        ∷ []
four_digits n h =
    padded_last 2 n
    ∙ ap (λ l. l ++ (b'0' + n % 10) ∷ [])
        (padded_last 1 (n / 10)
          ∙ ap (λ l. l ++ (b'0' + n / 10 % 10) ∷ []) (two_digits (n / 10 / 10) (omega arith)))

-- A date as the Gregorian calendar of the next eight thousand years gives it.
pub record InRange (at : LocalDate) : Type 0 where
  pub year_fits : at.year < 10000
  pub month_fits : at.minute.month < 12
  pub date_fits : at.minute.date < 32
  pub hours_fit : at.minute.hours < 24
  pub minutes_fit : at.minute.minutes < 60

-- The sixteen units of a key.
spelled : LocalDate → Text
spelled a =
    (b'0' + a.year / 10 / 10 / 10)
    ∷ (b'0' + a.year / 10 / 10 % 10)
    ∷ (b'0' + a.year / 10 % 10)
    ∷ (b'0' + a.year % 10)
    ∷ b'-'
    ∷ (b'0' + (a.minute.month + 1) / 10)
    ∷ (b'0' + (a.minute.month + 1) % 10)
    ∷ b'-'
    ∷ (b'0' + a.minute.date / 10)
    ∷ (b'0' + a.minute.date % 10)
    ∷ b'T'
    ∷ (b'0' + a.minute.hours / 10)
    ∷ (b'0' + a.minute.hours % 10)
    ∷ b':'
    ∷ (b'0' + a.minute.minutes / 10)
    ∷ (b'0' + a.minute.minutes % 10)
    ∷ []

key_spelled : (a : LocalDate) → InRange a → minute_key a ≡ spelled a
unfolding minute_key spelled
key_spelled a r = rw (
  four_digits a.year r.year_fits,
  two_digits (a.minute.month + 1) (omega (arith, r.month_fits)),
  two_digits a.minute.date (omega (arith, r.date_fits)),
  two_digits a.minute.hours (omega (arith, r.hours_fit)),
  two_digits a.minute.minutes (omega (arith, r.minutes_fit)),
)

unit_at : ℕ → Text → ℕ
unit_at i [] = 0
unit_at zero (u ∷ t) = u
unit_at (suc i) (u ∷ t) = unit_at i t

-- Two dates whose keys are equal agree in year, month, date, hour and minute, if in both the year is below
-- 10000, the month, counted from 0, below 12, the date below 32, the hour below 24 and the minute below 60.
pub same_key_same_minute :
    (a b : LocalDate)
    → InRange a
    → InRange b
    → minute_key a ≡ minute_key b
    → (a.year ≡ b.year)
      × (a.minute.month ≡ b.minute.month)
      × (a.minute.date ≡ b.minute.date)
      × (a.minute.hours ≡ b.minute.hours)
      × (a.minute.minutes ≡ b.minute.minutes)
unfolding spelled unit_at
same_key_same_minute a b ra rb e =
    let same = sym (key_spelled a ra) ∙ e ∙ key_spelled b rb in
    (
      omega (
        arith,
        ap (unit_at 0) same,
        ap (unit_at 1) same,
        ap (unit_at 2) same,
        ap (unit_at 3) same,
      ),
      omega (arith, ap (unit_at 5) same, ap (unit_at 6) same),
      omega (arith, ap (unit_at 8) same, ap (unit_at 9) same),
      omega (arith, ap (unit_at 11) same, ap (unit_at 12) same),
      omega (arith, ap (unit_at 14) same, ap (unit_at 15) same),
    )
