-- ===== src/Runtime/Cron/Match.antt =====
-- runtime/cron.ts: `parseCron` and `cronMatches`. A Date is the local fields that are read of it.
use mr_robot.Common.{
  ℕ, ◌+◌, Bool, true, false, not, ◌&&◌, ◌||◌, Option, none, some, List, [], ◌∷◌, map, leb,
  ◌==◌ as nat_eq, if◌then◌else◌,
}
use mr_robot.Common.Partial.{◌>>=◌}
use mr_robot.Common.Text.{Text, text, ◌==◌}
use mr_robot.Runtime.Cron.{
  minute_field, hour_field, day_of_month_field, month_field, day_of_week_field, CronExpr, selects,
  parse_field, put,
}

-- JavaScript's white space and line terminators, for `trim` and `\s`.
unfoldable pub is_space : ℕ → Bool
is_space u =
    (leb 9 u && leb u 13)
    || nat_eq u 32
    || nat_eq u 0xa0
    || nat_eq u 0x1680
    || (leb 0x2000 u && leb u 0x200a)
    || nat_eq u 0x2028
    || nat_eq u 0x2029
    || nat_eq u 0x202f
    || nat_eq u 0x205f
    || nat_eq u 0x3000
    || nat_eq u 0xfeff

unfoldable pub trim_start : Text → Text
trim_start [] = []
trim_start (u ∷ t) = let rest = trim_start t in if is_space u then rest else u ∷ t

unfoldable pub trim_end : Text → Text
trim_end [] = []
trim_end (u ∷ t) = elim (trim_end t) [
  | [] ↦ if is_space u then [] else u ∷ []
  | v ∷ rest ↦ u ∷ v ∷ rest
]

unfoldable pub trim : Text → Text
trim t = trim_end (trim_start t)

unfoldable pub starts_with_space : Text → Bool
starts_with_space [] = false
starts_with_space (u ∷ t) = is_space u

-- `text.split(/\s+/)`
unfoldable pub split_spaces : Text → List Text
split_spaces [] = [] ∷ []
split_spaces (u ∷ t) =
    let rest = split_spaces t in
    if is_space u then (if starts_with_space t then rest else [] ∷ rest) else put u rest

unfoldable pub includes : ℕ → Text → Bool
includes c [] = false
includes c (u ∷ t) = nat_eq u c || includes c t

-- The empty text, the macros and the nonstandard specials.
unfoldable pub is_refused : Text → Bool
is_refused [] = true
is_refused (u ∷ t) =
    nat_eq u b'@'
    || includes b'L' (u ∷ t)
    || includes b'W' (u ∷ t)
    || includes b'#' (u ∷ t)
    || includes b'?' (u ∷ t)

unfoldable pub sunday : ℕ → ℕ
sunday d = if nat_eq d 7 then 0 else d

unfoldable pub parse_fields : Text → List Text → Option CronExpr
parse_fields source (minutes ∷ hours ∷ dom ∷ months ∷ dow ∷ []) = do
  minute ← parse_field minutes minute_field
  hour ← parse_field hours hour_field
  day_of_month ← parse_field dom day_of_month_field
  month ← parse_field months month_field
  days ← parse_field dow day_of_week_field
  some (record {
    source = source;
    minute = minute;
    hour = hour;
    day_of_month = day_of_month;
    month = month;
    day_of_week = map sunday days;
    both_day_fields_restricted = not (dom == text "*") && not (dow == text "*");
  })
parse_fields source _ = none

unfoldable pub parse_cron : Text → Option CronExpr
parse_cron source =
    let t = trim source in if is_refused t then none else parse_fields t (split_spaces t)

-- `getMonth` counts from 0.
pub record LocalMinute : Type 0 where
  pub minutes : ℕ
  pub hours : ℕ
  pub date : ℕ
  pub month : ℕ
  pub day : ℕ

unfoldable pub cron_matches : CronExpr → LocalMinute → Bool
cron_matches e at =
    if not (selects e.minute at.minutes)
    then false
    else if not (selects e.hour at.hours)
    then false
    else if not (selects e.month (at.month + 1))
    then false
    else let dom_hit = selects e.day_of_month at.date in
      let dow_hit = selects e.day_of_week at.day in
      if e.both_day_fields_restricted then dom_hit || dow_hit else dom_hit && dow_hit
