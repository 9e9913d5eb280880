-- ===== src/Runtime/Cron/Days.antt =====
-- The two day fields of runtime/cron.ts, from the text of an expression to its match.
use mr_robot.Common.{
  ℕ, ◌+◌, ◌≤◌, ◌≡◌, ◌≢◌, refl, sym, ◌∙◌, inl, inr, Bool, true, false, not, ◌&&◌, ◌||◌, some,
  some-injective, List, [], ◌∷◌, map, arith, Option-cases, Bool-cases,
}
use mr_robot.Common.Text.{Text, text, ◌==◌, eq_iff}
use mr_robot.Runtime.Cron.{
  minute_field, hour_field, day_of_month_field, month_field, day_of_week_field, CronExpr, selects,
  parse_field, parse_terms, parse_term, parse_range, parse_step, body_of, is_stepped, steps,
  steps_from, split_commas, cut, put,
}
use mr_robot.Runtime.Cron.Match.{
  trim, split_spaces, sunday, parse_fields, parse_cron, is_refused, LocalMinute, cron_matches,
}

abbrev week : List ℕ
week = 0 ∷ 1 ∷ 2 ∷ 3 ∷ 4 ∷ 5 ∷ 6 ∷ 7 ∷ []

star_week : parse_field (text "*") day_of_week_field ≡ some week
unfolding parse_field parse_terms parse_term parse_range parse_step body_of is_stepped steps
    steps_from split_commas cut put ◌==◌
star_week = refl

any_day : (d : ℕ) → d ≤ 6 → selects (map sunday week) d ≡ true
unfolding selects sunday
any_day d le = ground arith

parsed_days :
    (source m h dom mo dow : Text) (e : CronExpr) (at : LocalMinute)
    → parse_fields source (m ∷ h ∷ dom ∷ mo ∷ dow ∷ []) ≡ some e
    → (days : List ℕ) × (parse_field dow day_of_week_field ≡ some days)
      × (e.day_of_week ≡ map sunday days)
      × (e.both_day_fields_restricted ≡ (not (dom == text "*") && not (dow == text "*")))
unfolding parse_fields
parsed_days source m h dom mo dow e at p = elim (Option-cases (parse_field m minute_field)) [
  | inl bad ↦ ground arith
  | inr (ms, a) ↦ elim (Option-cases (parse_field h hour_field)) [
    | inl bad ↦ ground arith
    | inr (hs, b) ↦ elim (Option-cases (parse_field dom day_of_month_field)) [
      | inl bad ↦ ground arith
      | inr (ds, c) ↦ elim (Option-cases (parse_field mo month_field)) [
        | inl bad ↦ ground arith
        | inr (mos, d) ↦ elim (Option-cases (parse_field dow day_of_week_field)) [
          | inl bad ↦ ground arith
          | inr (days, f) ↦ (days, f, ground arith, ground arith)
        ]
      ]
    ]
  ]
]

parse_cron-fields :
    (source : Text) (fs : List Text) (e : CronExpr)
    → split_spaces (trim source) ≡ fs
    → parse_cron source ≡ some e
    → parse_fields (trim source) fs ≡ some e
unfolding parse_cron
parse_cron-fields source fs e split p = elim (Bool-cases (is_refused (trim source))) [
  | inl refused ↦ ground arith
  | inr fine ↦ ground arith
]

-- The expression's minute, hour and month hold at the local minute.
abbrev pub time_matches : CronExpr → LocalMinute → Bool
time_matches e at =
    selects e.minute at.minutes && selects e.hour at.hours && selects e.month (at.month + 1)

-- An expression of five fields whose last is `*` matches a local minute whose day of the week is 0 to 6
-- exactly when its minute, hour, month and day of the month do: the day of the week is ignored.
pub star_weekday_is_ignored :
    (source m h dom mo : Text) (e : CronExpr) (at : LocalMinute)
    → split_spaces (trim source) ≡ m ∷ h ∷ dom ∷ mo ∷ text "*" ∷ []
    → parse_cron source ≡ some e
    → at.day ≤ 6
    → cron_matches e at ≡ (time_matches e at && selects e.day_of_month at.date)
unfolding cron_matches
star_weekday_is_ignored source m h dom mo e at split p le =
    let (days, f, is, both) =
      parsed_days (trim source) m h dom mo (text "*") e at (parse_cron-fields source _ e split p) in
    let one : days ≡ week = some-injective days week (sym f ∙ star_week) in
    let hit : selects e.day_of_week at.day ≡ true = rw (is, one) (any_day at.day le) in
    let loose : e.both_day_fields_restricted ≡ false =
      ground (arith, eq_iff (text "*") (text "*")) in
    ground arith

-- An expression of five fields of which neither day field is `*` matches exactly when its minute,
-- hour and month do and the day of the month or the day of the week does.
pub either_day_matches :
    (source m h dom mo dow : Text) (e : CronExpr) (at : LocalMinute)
    → split_spaces (trim source) ≡ m ∷ h ∷ dom ∷ mo ∷ dow ∷ []
    → parse_cron source ≡ some e
    → dom ≢ text "*"
    → dow ≢ text "*"
    → cron_matches e at
      ≡ (time_matches e at && (selects e.day_of_month at.date || selects e.day_of_week at.day))
unfolding cron_matches
either_day_matches source m h dom mo dow e at split p first second =
    let (days, f, is, both) =
      parsed_days (trim source) m h dom mo dow e at (parse_cron-fields source _ e split p) in
    ground (arith, eq_iff dom (text "*"), eq_iff dow (text "*"))
