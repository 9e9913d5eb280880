-- ===== src/Tests/Schedules.antt =====
-- Cron expressions at concrete texts.
use mr_robot.Common.{ℕ, ◌≡◌, ◌≢◌, refl, true, false, ◌&&◌, ◌||◌, some, List, [], ◌∷◌, arith}
use mr_robot.Common.Text.{text, ◌==◌}
use mr_robot.Runtime.Cron.{
  minute_field, CronExpr, selects, is_digit, all_digits, value_from, whole_number, number_in, cut,
  steps_from, steps, parse_step, body_of, parse_single, parse_range, is_stepped, parse_term, put,
  split_commas, parse_terms, parse_field,
}
use mr_robot.Runtime.Cron.Match.{
  is_space, trim_start, trim_end, trim, starts_with_space, split_spaces, includes, is_refused,
  sunday, parse_fields, parse_cron, LocalMinute, cron_matches,
}
use mr_robot.Runtime.Cron.Days.{time_matches, star_weekday_is_ignored, either_day_matches}

abbrev listed : List ℕ
listed = 5 ∷ 10 ∷ 20 ∷ 30 ∷ []

quarters : parse_field (text "5,10-30/10") minute_field ≡ some listed
unfolding parse_field parse_terms parse_term parse_range parse_single parse_step body_of is_stepped
    steps steps_from split_commas cut put number_in whole_number all_digits is_digit value_from ◌==◌
quarters = refl

twenty : selects listed 20 ≡ true
unfolding selects
twenty = refl

abbrev new_year : CronExpr
new_year = record {
  source = text "0 0 1 1  *";
  minute = 0 ∷ [];
  hour = 0 ∷ [];
  day_of_month = 1 ∷ [];
  month = 1 ∷ [];
  day_of_week = 0 ∷ 1 ∷ 2 ∷ 3 ∷ 4 ∷ 5 ∷ 6 ∷ 0 ∷ [];
  both_day_fields_restricted = false;
}

new_year_splits :
    split_spaces (trim (text " 0 0 1 1  *"))
    ≡ text "0" ∷ text "0" ∷ text "1" ∷ text "1" ∷ text "*" ∷ []
unfolding split_spaces trim trim_start trim_end is_space starts_with_space put
new_year_splits = refl

abbrev midnight : LocalMinute
midnight = record { minutes = 0; hours = 0; date = 1; month = 0; day = 3 }

new_year_parses : parse_cron (text " 0 0 1 1  *") ≡ some new_year
unfolding parse_cron parse_fields is_refused includes sunday split_spaces trim trim_start trim_end
    is_space starts_with_space put parse_field parse_terms parse_term parse_range parse_single
    parse_step body_of is_stepped steps steps_from split_commas cut number_in whole_number
    all_digits is_digit value_from ◌==◌
new_year_parses = refl

star_weekday_is_ignored_example :
    cron_matches new_year midnight ≡ (time_matches new_year midnight && selects (1 ∷ []) 1)
star_weekday_is_ignored_example =
    star_weekday_is_ignored (text " 0 0 1 1  *") (text "0") (text "0") (text "1") (text "1")
      new_year midnight new_year_splits new_year_parses (omega arith)

abbrev mondays : CronExpr
mondays = record {
  source = text "0 0 1 1 1";
  minute = 0 ∷ [];
  hour = 0 ∷ [];
  day_of_month = 1 ∷ [];
  month = 1 ∷ [];
  day_of_week = 1 ∷ [];
  both_day_fields_restricted = true;
}

mondays_splits :
    split_spaces (trim (text "0 0 1 1 1"))
    ≡ text "0" ∷ text "0" ∷ text "1" ∷ text "1" ∷ text "1" ∷ []
unfolding split_spaces trim trim_start trim_end is_space starts_with_space put
mondays_splits = refl

mondays_parses : parse_cron (text "0 0 1 1 1") ≡ some mondays
unfolding parse_cron parse_fields is_refused includes sunday split_spaces trim trim_start trim_end
    is_space starts_with_space put parse_field parse_terms parse_term parse_range parse_single
    parse_step body_of is_stepped steps steps_from split_commas cut number_in whole_number
    all_digits is_digit value_from ◌==◌
mondays_parses = refl

not_star : text "1" ≢ text "*"
not_star = λ e. ground (arith, e)

either_day_matches_example :
    cron_matches mondays midnight
    ≡ (time_matches mondays midnight && (selects (1 ∷ []) 1 || selects (1 ∷ []) 3))
either_day_matches_example =
    either_day_matches (text "0 0 1 1 1") (text "0") (text "0") (text "1") (text "1") (text "1")
      mondays midnight mondays_splits mondays_parses not_star not_star
