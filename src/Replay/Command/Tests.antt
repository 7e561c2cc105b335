-- ===== src/Replay/Command/Tests.antt =====
-- A replay over the sample store.
use posta.Shared.{String, false, List, Option, none, some, Outcome, ok}
use posta.Shared.Thrown.{Thrown, new_error}
use posta.Core.EventLog.Ndjson.Samples.{store}
use posta.Replay.Driver.Steps.{Setting}
use posta.Replay.Arguments.{ArgValues}

abbrev setting : Setting
setting = record { fails = λ h rows. none; log = store; date_parse = λ text. some 0; rounds = 1 }

abbrev prints : String → Option Thrown
prints line = none

abbrev warns : String → Option Thrown
warns line = some (new_error "EPIPE")

abbrev parse_args : List String → Outcome ArgValues
parse_args argv = ok (record {
  from = some "2026-01-01";
  to = some "2026-01-02";
  tenant = none;
  dry_run = false;
  batch_size = some "3";
})
