-- ===== src/Core/EventLog/Keys/Tests.antt =====
-- Keys and prefixes of one day.
use mathlib.Core.List.{Mem}
use posta.Shared.{
  ℕ, ◌≡◌, refl, List, [], ◌∷◌, String, Option, none, some, ok, str_eq, if◌then◌else◌, arith,
}
use posta.Shared.Text.{concat, show, zero_pad, zeros, digits}
use posta.Core.EventLog.Keys.{
  event_batch_key, event_prefixes, prefixes_of_days, day_prefixes, hour_prefixes, partition_prefix,
  utc_date,
}
use posta.Core.EventLog.Keys.Coverage.{event_prefixes-event_batch_key}

-- 2026-07-20T23:45:00-03:00, and the two days around it.
abbrev clock : String → Option ℕ
clock text =
    if str_eq text "2026-07-20T23:45:00-03:00"
    then some 1784601900000
    else if str_eq text "2026-07-20"
    then some 1784505600000
    else if str_eq text "2026-07-21"
    then some 1784592000000
    else none

opened : Unit {0}
unfolding event_batch_key event_prefixes prefixes_of_days day_prefixes hour_prefixes
    partition_prefix show zero_pad zeros digits
opened = tt

leap_day : utc_date 19782 ≡ record { year = 2024; month = 2; date = 29 }
leap_day = refl

key :
    event_batch_key clock "b" "2026-07-20T23:45:00-03:00"
    ≡ ok "events/dt=2026-07-21/hour=02/b.ndjson"
unfolding opened
key = refl

event_prefixes-event_batch_key_example :
    (prefixes : List String) × (event_prefixes clock "2026-07-20" "2026-07-21" ≡ ok prefixes)
    × (prefix : String) × Mem prefix prefixes
    × (event_batch_key clock "b" "2026-07-20T23:45:00-03:00"
        ≡ ok (concat (prefix ∷ "b" ∷ ".ndjson" ∷ [])))
event_prefixes-event_batch_key_example =
    event_prefixes-event_batch_key clock "2026-07-20" "2026-07-21" "2026-07-20T23:45:00-03:00" "b"
      1784505600000 1784592000000 1784601900000 refl refl refl (omega arith) (omega arith)
      (omega arith)
