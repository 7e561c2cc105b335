-- ===== src/Replay/Command/Outcomes.antt =====
-- What a run of the replay command leaves behind.
use posta.Shared.{
  ◌≡◌, String, Bool, true, false, List, [], Option, some, length, select, ◌⊎◌, Outcome, ok, throw,
  stuck,
}
use posta.Shared.Thrown.{Thrown}
use posta.Shared.Recording.{History, reply}
use posta.Core.EventLog.Keys.{event_prefixes}
use posta.Core.EventLog.Ndjson.{LoggedEvent, ListPage}
use posta.Core.EventLog.Ndjson.Stored.{stored_events}
use posta.Batch.Rows.{NewEvent}
use posta.Replay.Driver.{ReplayDriverOptions}
use posta.Replay.Driver.History.{landed, IsPrefix}
use posta.Replay.Driver.Steps.{State, Setting, recorded}
use posta.Replay.Driver.Rows.{wanted}
use posta.Replay.Arguments.{ArgValues, ReplayCliOptions}
use posta.Replay.Command.{
  ReplayCliResult, ReplayCliDeps, matches_tenant, tenant_filter, exit, exit_ok, exit_args_error,
  exit_runtime_error,
}

-- The database of the history; each of the two outputs may fail at a line.
abbrev pub printing :
    Setting
    → (prints warns : String → Option Thrown) → (List String → Outcome ArgValues)
    → ReplayCliDeps (History (List NewEvent))
printing setting prints warns parse_args = record {
  replay = recorded setting;
  stdout = λ line s. (reply (prints line) tt, s);
  stderr = λ line s. (reply (warns line) tt, s);
  parse_args = parse_args;
}

-- Standard error fails at some line.
abbrev pub IsMute : (String → Option Thrown) → Type 0
IsMute warns = (line : String) × (e : Thrown) × (warns line ≡ some e)

abbrev pub driver_options : ReplayCliOptions → List String → ReplayDriverOptions
driver_options options prefixes = record {
  prefixes = prefixes;
  batch_size = options.batch_size;
  filter = tenant_filter options.tenant_id;
}

module _ (setting : Setting) (pages : String → List ListPage)
    (stored : String → List LoggedEvent) where
  -- The rows that a replay is to write.
  abbrev pub rows_of : ReplayCliOptions → List String → List NewEvent
  rows_of options prefixes =
      wanted setting.date_parse (driver_options options prefixes)
        (stored_events pages stored prefixes)

  -- A dry run writes nothing and counts the records of the tenant. A real one lands every row, or fails and lands
  -- the first of them.
  abbrev pub HasRun : Bool → ReplayCliOptions → List String → ReplayCliResult → State → Type 0
  HasRun true options prefixes r s =
      (s.outer ≡ [])
      × (((r.exit_code ≡ exit_ok)
            × (r.matched_count
                ≡ some (
                    length (
                      select (matches_tenant options.tenant_id)
                        (stored_events pages stored prefixes)))))
          ⊎ (r.exit_code ≡ exit_runtime_error))
  HasRun false options prefixes r s =
      ((r.exit_code ≡ exit_ok) × (landed s.outer ≡ rows_of options prefixes))
      ⊎ ((r.exit_code ≡ exit_runtime_error) × IsPrefix (landed s.outer) (rows_of options prefixes))

  abbrev pub HasRunPrefixes :
      Outcome (List String) → ReplayCliOptions → ReplayCliResult → State → Type 0
  HasRunPrefixes (ok prefixes) options r s = HasRun options.dry_run options prefixes r s
  HasRunPrefixes (throw e) options r s = (r.exit_code ≡ exit_runtime_error) × (s.outer ≡ [])
  HasRunPrefixes stuck options r s = ⊥

  -- Where the arguments are refused, nothing is written.
  abbrev pub HasRunArgs : Outcome ReplayCliOptions → ReplayCliResult → State → Type 0
  HasRunArgs (ok options) r s =
      HasRunPrefixes (event_prefixes setting.date_parse options.from options.to) options r s
  HasRunArgs (throw e) r s = (r.exit_code ≡ exit_args_error) × (s.outer ≡ [])
  HasRunArgs stuck r s = ⊥

  -- The result that a command which fails would have.
  abbrev pub failing_result : Outcome ReplayCliOptions → ReplayCliResult
  failing_result (throw e) = exit exit_args_error
  failing_result _ = exit exit_runtime_error

  -- Standard error failed, and what was written is what a failure leaves.
  abbrev pub HasThrown : (String → Option Thrown) → Outcome ReplayCliOptions → State → Type 0
  HasThrown warns args s = IsMute warns × HasRunArgs args (failing_result args) s
