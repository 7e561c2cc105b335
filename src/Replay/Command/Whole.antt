-- ===== src/Replay/Command/Whole.antt =====
-- The whole command: its exit code tells what happened.
use posta.Shared.{String, Bool, List, Option, Outcome}
use posta.Shared.Thrown.{Thrown}
use posta.Core.EventLog.Ndjson.{LoggedEvent, ListPage}
use posta.Core.EventLog.Ndjson.Stored.{IsStored}
use posta.Replay.Driver.Steps.{State, Setting}
use posta.Replay.Arguments.{ArgValues, ReplayCliOptions}
use posta.Replay.Command.{exit, exit_runtime_error}
use posta.Replay.Command.Outcomes.{HasRun}

module _ (setting : Setting) (prints warns : String → Option Thrown)
    (parse_args : List String → Outcome ArgValues) {serve : String → Option String → ListPage}
    (pages : String → List ListPage) (stored : String → List LoggedEvent)
    (store : IsStored setting.log setting.rounds serve pages stored) where
  -- A run that fails ends with the exit code of a failure.
  Failing : Bool → ReplayCliOptions → List String → State → Type 0
  Failing b options prefixes s =
      HasRun setting pages stored b options prefixes (exit exit_runtime_error) s
