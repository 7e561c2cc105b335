-- ===== src/Replay/Arguments/Tests.antt =====
-- Arguments that are taken, and some that are refused.
use posta.Shared.{
  ◌≡◌, refl, ℕ, String, false, List, [], ◌∷◌, Option, none, some, str_eq, if◌then◌else◌, Outcome,
  ok, throw,
}
use posta.Replay.Arguments.{
  ArgValues, ReplayCliOptions, parse_required_date, is_fully_numeric, parse_int, parse_batch_size,
  check_values, parse_replay_args, replay_args_error,
}
use posta.Replay.Arguments.Valid.{IsValid, parse_replay_args-IsValid}

abbrev date_parse : String → Option ℕ
date_parse text =
    if str_eq text "2026-01-01" then some 10 else if str_eq text "2026-01-02" then some 20 else none

abbrev values : ArgValues
values = record {
  from = some "2026-01-01";
  to = some "2026-01-02";
  tenant = some "t1";
  dry_run = false;
  batch_size = some "250";
}

abbrev parse_args : List String → Outcome ArgValues
parse_args argv = ok values

abbrev options : ReplayCliOptions
options = record {
  from = "2026-01-01";
  to = "2026-01-02";
  tenant_id = some "t1";
  dry_run = false;
  batch_size = some 250;
}

parse_replay_args-ok : parse_replay_args date_parse parse_args [] ≡ ok options
unfolding parse_replay_args check_values parse_required_date parse_batch_size is_fully_numeric
    parse_int
parse_replay_args-ok = refl

check_values-swapped :
    check_values date_parse (record values { from = some "2026-01-02"; to = some "2026-01-01" })
    ≡ throw (
        replay_args_error (
          "--from (\"" ∷ "2026-01-02" ∷ "\") is after --to (\"" ∷ "2026-01-01"
          ∷ "\") — check for swapped flags" ∷ []))
unfolding check_values parse_required_date parse_batch_size is_fully_numeric parse_int
check_values-swapped = refl

parse_replay_args-IsValid_example :
    (values : ArgValues) × (parse_args [] ≡ ok values) × IsValid date_parse values options
parse_replay_args-IsValid_example =
    parse_replay_args-IsValid date_parse parse_args [] options parse_replay_args-ok
