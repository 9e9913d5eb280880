-- ===== src/Tests/Ticks.antt =====
-- The scheduler and its keys at concrete ticks.
use mr_robot.Common.{ℕ, ◌≡◌, ◌≤◌, refl, true, false, [], ◌∷◌, arith, length}
use mr_robot.Common.Text.{text, ◌==◌}
use mr_robot.Runtime.Cron.Match.{
  cron_matches, includes, is_refused, is_space, parse_cron, parse_fields, split_spaces,
  starts_with_space, sunday, trim, trim_end, trim_start,
}
use mr_robot.Runtime.Cron.Key.{LocalDate, minute_key, digits, padded, zeros}
use mr_robot.Runtime.Cron.Distinct.{InRange, same_key_same_minute}
use mr_robot.Runtime.Scheduler.{
  World, Scheduler, create, start, tick, claim, consider, expr_for, has_fired, over_agents, seed,
}
use mr_robot.Runtime.Scheduler.Once.{minute_fires_once}
use mr_robot.Runtime.Scheduler.Claims.{times, Reaches}
use mr_robot.Common.Map.{get, set}
use mr_robot.Runtime.Cron.{
  all_digits, body_of, cut, is_digit, is_stepped, number_in, parse_field, parse_range, parse_single,
  parse_step, parse_term, parse_terms, put, selects, split_commas, steps, steps_from, value_from,
  whole_number,
}

abbrev nine : LocalDate
nine = record {
  year = 2026;
  minute = record { month = 0; date = 5; hours = 9; minutes = 0; day = 1 };
}

nine-InRange : InRange nine
nine-InRange = record {
  year_fits = omega arith;
  month_fits = omega arith;
  date_fits = omega arith;
  hours_fit = omega arith;
  minutes_fit = omega arith;
}

-- The same minute as another clock object gives it, on another day of the week.
abbrev other_day : LocalDate
other_day = record {
  year = 2026;
  minute = record { month = 0; date = 5; hours = 9; minutes = 0; day = 2 };
}

other_day-InRange : InRange other_day
other_day-InRange = record {
  year_fits = omega arith;
  month_fits = omega arith;
  date_fits = omega arith;
  hours_fit = omega arith;
  minutes_fit = omega arith;
}

same_text : minute_key nine ≡ minute_key other_day
unfolding minute_key
same_text = refl

same_key_same_minute_example :
    (nine.year ≡ other_day.year)
    × (nine.minute.month ≡ other_day.minute.month)
    × (nine.minute.date ≡ other_day.minute.date)
    × (nine.minute.hours ≡ other_day.minute.hours)
    × (nine.minute.minutes ≡ other_day.minute.minutes)
same_key_same_minute_example =
    same_key_same_minute nine other_day nine-InRange other_day-InRange same_text

abbrev office : World
office = record {
  agents = record { agent_id = text "ceo"; schedule = text "0 9 * * 1-5" } ∷ [];
  busy = λ a. false;
  takes = λ a. true;
  launches = λ a. true;
}

abbrev stopped_clock : ℕ → LocalDate
stopped_clock t = nine

-- A tick, and another after a restart within the minute.
abbrev restarted : Scheduler
restarted =
    tick office nine (record (start (create (tick office nine (start (create []))).claims)) {
      starts = (tick office nine (start (create []))).starts;
    })

abbrev trace : Reaches stopped_clock 1 restarted
trace =
    Reaches.ticks office 1 (Reaches.restarts (Reaches.ticks office 0 Reaches.boot (omega arith)))
      (omega arith)

one_claim : length restarted.claims ≡ 1
unfolding tick start over_agents consider expr_for get parse_cron is_refused trim trim_end
    trim_start is_space includes parse_fields split_spaces put starts_with_space parse_field
    parse_terms set ◌==◌ digits minute_key padded zeros cron_matches sunday all_digits body_of cut
    is_digit is_stepped number_in parse_range parse_single parse_step parse_term selects
    split_commas steps steps_from value_from whole_number claim has_fired seed
one_claim = refl

minute_fires_once_example :
    (times (text "ceo") (minute_key nine) restarted.claims ≤ 1)
    × (times (text "ceo") (minute_key nine) restarted.starts ≤ 1)
minute_fires_once_example =
    minute_fires_once stopped_clock (λ v t u before after is. refl) 1 restarted trace (text "ceo")
      (minute_key nine)

-- A local hour that comes twice: the minute at one o'clock is claimed again when half past is the last
-- minute that was claimed.
abbrev night : World
night = record office {
  agents = record { agent_id = text "ceo"; schedule = text "0,30 1 * * *" } ∷ [];
}

abbrev one_past : ℕ → LocalDate
one_past m = record {
  year = 2026;
  minute = record { month = 9; date = 25; hours = 1; minutes = m; day = 0 };
}

repeated_hour_fires_twice :
    times
      (text "ceo")
      (minute_key (one_past 0))
      (tick night
        (one_past 0)
        (tick night (one_past 30) (tick night (one_past 0) (start (create []))))).starts
    ≡ 2
unfolding tick start over_agents consider expr_for get parse_cron is_refused trim trim_end
    trim_start is_space includes parse_fields split_spaces put starts_with_space parse_field
    parse_terms set ◌==◌ digits minute_key padded zeros cron_matches sunday all_digits body_of cut
    is_digit is_stepped number_in parse_range parse_single parse_step parse_term selects
    split_commas steps steps_from value_from whole_number claim has_fired seed times
repeated_hour_fires_twice = refl
