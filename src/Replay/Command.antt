-- ===== src/Replay/Command.antt =====
-- apps/worker/src/cli/replay.ts: runReplayCli and main. The two output streams are parameters, as are the clients
-- that `main` opens and closes.
pub mod Outcomes
pub mod Runs
pub mod Whole
mod Tests
use posta.Shared.{
  ℕ, ◌+◌, String, Bool, true, false, ◌||◌, ◌==◌, ltb, List, [], ◌∷◌, Option, none, some,
  if◌then◌else◌, str_eq, Act, Outcome, ok, throw, pure, raise, no_fuel, lift, caught, try_catch,
  ◌>>=◌, ◌>>◌, length,
}
use posta.Shared.Text.{concat, show, join}
use posta.Shared.Thrown.{Thrown, error_message, new_error}
use posta.Core.EventLog.Keys.{event_prefixes}
use posta.Core.EventLog.Ndjson.{LoggedEvent, stream_event_log}
use posta.Replay.Driver.{Replay, ReplayDeps, ReplaySummary, replay_event_log}
use posta.Replay.Arguments.{ArgValues, ReplayCliOptions, parse_replay_args}

abbrev pub exit_ok : ℕ
exit_ok = 0

abbrev pub exit_args_error : ℕ
exit_args_error = 1

abbrev pub exit_runtime_error : ℕ
exit_runtime_error = 2

pub record ReplayCliResult : Type 0 where
  pub exit_code : ℕ
  pub matched_count : Option ℕ
  pub summary : Option ReplaySummary

pub record ReplayCliDeps (W : Type 0) : Type 0 where
  pub replay : ReplayDeps W
  pub stdout : String → Act (Replay W) (Unit {0})
  pub stderr : String → Act (Replay W) (Unit {0})
  pub parse_args : List String → Outcome ArgValues

-- `matchesTenant`
abbrev pub matches_tenant : Option String → LoggedEvent → Bool
matches_tenant none record_of_event = true
matches_tenant (some tenant) record_of_event = str_eq record_of_event.event.tenant_id tenant

abbrev pub tenant_filter : Option String → Option (LoggedEvent → Bool)
tenant_filter none = none
tenant_filter (some tenant) = some (matches_tenant (some tenant))

abbrev pub exit : ℕ → ReplayCliResult
exit code = record { exit_code = code; matched_count = none; summary = none }

module _ {W : Type 0} (deps : ReplayCliDeps W) where
  pub warn_if_tenant_matched_nothing : Option String → ℕ → ℕ → Act (Replay W) (Unit {0})
  warn_if_tenant_matched_nothing none records_read matched_count = pure tt
  warn_if_tenant_matched_nothing (some tenant) records_read matched_count =
      if records_read == 0 || ltb 0 matched_count
      then pure tt
      else deps.stderr (
          concat (
            "posta replay: --tenant \""
            ∷ tenant
            ∷ "\" matched 0 of "
            ∷ show records_read
            ∷ " record(s) read in range — not an error, but double-check the tenant id if that is unexpected."
            ∷ []))

  pub count_dry : Option String → LoggedEvent → Act (Replay W) (Unit {0})
  unfolding pure
  count_dry tenant logged s = pure tt (record s {
    total_read = s.total_read + 1;
    matched_count = if matches_tenant tenant logged then s.matched_count + 1 else s.matched_count;
  })

  pub reset_dry : Act (Replay W) (Unit {0})
  unfolding pure
  reset_dry s = pure tt (record s { total_read = 0; matched_count = 0 })

  abbrev pub for_tenant : Option String → String → String → String
  for_tenant none before after = ""
  for_tenant (some tenant) before after = concat (before ∷ tenant ∷ after ∷ [])

  -- What follows the loop of a dry run.
  pub report_dry : Option String → Act (Replay W) ReplayCliResult
  report_dry tenant s =
      (do
        warn_if_tenant_matched_nothing tenant s.total_read s.matched_count
        deps.stdout (
            concat (
              "posta replay --dry-run: "
              ∷ show s.matched_count
              ∷ " record(s) would be replayed"
              ∷ for_tenant tenant " for tenant \"" "\""
              ∷ ", 0 inserted"
              ∷ []))
        pure (record { exit_code = exit_ok; matched_count = some s.matched_count; summary = none }))
        s

  pub dry_run : ReplayCliOptions → List String → Act (Replay W) ReplayCliResult
  dry_run options prefixes = do
    reset_dry
    stream_event_log deps.replay.log (count_dry options.tenant_id) deps.replay.rounds prefixes
    report_dry options.tenant_id

  pub real_run : ReplayCliOptions → List String → Act (Replay W) ReplayCliResult
  real_run options prefixes = do
    summary ← replay_event_log deps.replay (record {
      prefixes = prefixes;
      batch_size = options.batch_size;
      filter = tenant_filter options.tenant_id;
    })
    warn_if_tenant_matched_nothing options.tenant_id summary.records_read summary.batches_written
    deps.stdout (
        concat (
          "posta replay: read "
          ∷ show summary.records_read
          ∷ " record(s), wrote "
          ∷ show summary.batches_written
          ∷ " batch(es)"
          ∷ for_tenant options.tenant_id " (filtered to tenant \"" "\")"
          ∷ []))
    pure (record { exit_code = exit_ok; matched_count = none; summary = some summary })

  abbrev pub run_either : Bool → ReplayCliOptions → List String → Act (Replay W) ReplayCliResult
  run_either true options prefixes = dry_run options prefixes
  run_either false options prefixes = real_run options prefixes

  pub run_options : ReplayCliOptions → Act (Replay W) ReplayCliResult
  run_options options = do
    prefixes ← lift (event_prefixes deps.replay.date_parse options.from options.to)
    run_either options.dry_run options prefixes

  abbrev pub after_args : Outcome ReplayCliOptions → Act (Replay W) ReplayCliResult
  after_args (throw e) = do deps.stderr (error_message e); pure (exit exit_args_error)
  after_args Outcome.stuck = no_fuel
  after_args (ok options) = try_catch (run_options options) (λ e. do
    deps.stderr (concat ("posta replay: failed: " ∷ error_message e ∷ []))
    pure (exit exit_runtime_error))

  pub run_replay_cli : List String → Act (Replay W) ReplayCliResult
  run_replay_cli argv = after_args (parse_replay_args deps.replay.date_parse deps.parse_args argv)
