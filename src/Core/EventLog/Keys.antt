-- ===== src/Core/EventLog/Keys.antt =====
-- packages/core/src/r2/keys.ts: the key that a batch is stored under, and the prefixes that a range
-- of days is listed by. An instant is its number of milliseconds since 1970, as `getTime` gives it;
-- `Date.parse` is a parameter, and instants before 1970 are left out.
pub mod Coverage
pub mod Totality
mod Tests
use posta.Shared.{
  ℕ, zero, suc, ◌+◌, ◌-◌, ◌*◌, ◌/◌, ◌%◌, String, List, [], ◌∷◌, ◌++◌, Option, none, some,
  if◌then◌else◌, ltb, leb, Outcome, ok, throw, bind_outcome,
}
use posta.Shared.Text.{concat, show, zero_pad}
use posta.Shared.Thrown.{new_error}

abbrev pub hours_per_day : ℕ
hours_per_day = 24

abbrev pub ms_per_hour : ℕ
ms_per_hour = 3600000

abbrev pub ms_per_day : ℕ
ms_per_day = 86400000

abbrev pub max_range_days : ℕ
max_range_days = 3660

pub record UtcDate : Type 0 where
  pub year : ℕ
  pub month : ℕ
  pub date : ℕ

-- `getUTCFullYear`, `getUTCMonth` + 1 and `getUTCDate` of a day, counted from 1970: the Gregorian
-- calendar, reckoned in years that begin in March.
abbrev pub utc_date : ℕ → UtcDate
utc_date day =
    let shifted = day + 719468 in
    let era = shifted / 146097 in
    let of_era = shifted % 146097 in
    let year_of_era = (of_era + of_era / 36524 - of_era / 1460 - of_era / 146096) / 365 in
    let of_year = of_era + year_of_era / 100 - (365 * year_of_era + year_of_era / 4) in
    let shifted_month = (5 * of_year + 2) / 153 in
    let month = if ltb shifted_month 10 then shifted_month + 3 else shifted_month - 9 in
    record {
      year = if leb month 2 then year_of_era + era * 400 + 1 else year_of_era + era * 400;
      month = month;
      date = of_year + 1 - (153 * shifted_month + 2) / 5;
    }

-- The day of an instant, and the hour in it (`getUTCHours`).
abbrev pub day_of : ℕ → ℕ
day_of ms = ms / ms_per_day

abbrev pub hour_of : ℕ → ℕ
hour_of ms = (ms % ms_per_day) / ms_per_hour

-- `events/dt=YYYY-MM-DD/hour=HH/`, which both functions write.
pub partition_prefix : UtcDate → ℕ → String
partition_prefix d hour = concat (
    "events/dt="
    ∷ show d.year
    ∷ "-"
    ∷ zero_pad d.month 2
    ∷ "-"
    ∷ zero_pad d.date 2
    ∷ "/hour="
    ∷ zero_pad hour 2
    ∷ "/"
    ∷ [])

-- The inner loop, with `left` hours to go.
pub hour_prefixes : UtcDate → ℕ → ℕ → List String
hour_prefixes d hour zero = []
hour_prefixes d hour (suc left) = partition_prefix d hour ∷ hour_prefixes d (hour + 1) left

-- The outer loop. The fuel is the number of days in the range, so the test ends the loop.
pub day_prefixes : ℕ → ℕ → ℕ → List String
day_prefixes zero day_ms to_day_ms = []
day_prefixes (suc fuel) day_ms to_day_ms =
    let rest = day_prefixes fuel (day_ms + ms_per_day) to_day_ms in
    if leb day_ms to_day_ms
    then hour_prefixes (utc_date (day_of day_ms)) 0 hours_per_day ++ rest
    else []

-- What follows the parsing, on the first milliseconds of the two days.
pub prefixes_of_days : ℕ → ℕ → Outcome (List String)
prefixes_of_days from_day_ms to_day_ms =
    let range_days = (to_day_ms - from_day_ms) / ms_per_day + 1 in
    if ltb to_day_ms from_day_ms
    then throw (new_error "eventPrefixes: from falls on a UTC calendar day after to")
    else if ltb max_range_days range_days
    then throw (new_error "eventPrefixes: the range exceeds the 3660-day maximum")
    else ok (day_prefixes range_days from_day_ms to_day_ms)

module _ (date_parse : String → Option ℕ) where
  abbrev valid : Option ℕ → String → String → String → Outcome ℕ
  valid (some ms) text fn_name param_name = ok ms
  valid none text fn_name param_name = throw (
      new_error (
        concat (
          fn_name ∷ ": " ∷ param_name ∷ " is not a valid ISO-8601 timestamp: \"" ∷ text ∷ "\""
          ∷ [])))

  abbrev pub parse_instant : String → String → String → Outcome ℕ
  parse_instant text fn_name param_name = valid (date_parse text) text fn_name param_name

  pub event_batch_key : String → String → Outcome String
  event_batch_key batch_id occurred_at =
      bind_outcome (parse_instant occurred_at "eventBatchKey" "occurredAt") λ parsed.
        let prefix = partition_prefix (utc_date (day_of parsed)) (hour_of parsed) in
        ok (concat (prefix ∷ batch_id ∷ ".ndjson" ∷ []))

  pub event_prefixes : String → String → Outcome (List String)
  event_prefixes first last = bind_outcome (parse_instant first "eventPrefixes" "from") λ a.
      bind_outcome (parse_instant last "eventPrefixes" "to")
        λ b. prefixes_of_days (ms_per_day * day_of a) (ms_per_day * day_of b)
