-- ===== src/Replay/Report/Tests.antt =====
-- Two prefixes of two events each; the database has some of the rows already, and the schema refuses one record.
use posta.Shared.{
  ◌≡◌, refl, sym, arith, String, List, [], ◌∷◌, none, some, if◌then◌else◌, inr, str_eq, length,
  ◌==◌,
}
use posta.Shared.Thrown.{new_error}
use posta.Shared.Triples.{Triple}
use posta.Core.EventLog.Ndjson.Samples.{serve, pages, events, store, store-IsStored}
use posta.Core.EventLog.Ndjson.Stored.{stored_events}
use posta.Batch.Rows.{NewEvent}
use posta.Replay.Reconciliation.{
  Issue, build_replay_report, count_reason, describe_rejection, format_final_report_lines,
}
use posta.Replay.Report.{ReplayReportOptions, replay_with_report}
use posta.Replay.Report.Ledger.{Setting, IsReturning, recorded}
use posta.Replay.Report.Records.{accepted_rows}
use posta.Replay.Report.Printed.{IsUnfinished, HasPrinted}
use posta.Replay.Report.Reconciled.{replay_with_report-IsReconciled}

abbrev issues : List Issue
issues =
    record { path = "tenant_id" ∷ []; message = "Required" }
    ∷ record { path = []; message = "Invalid" }
    ∷ []

-- The database has all rows of an insert but the first.
abbrev first_id : List NewEvent → List String
first_id [] = []
first_id (row ∷ rows) = row.event_id ∷ []

abbrev setting : Setting
setting = record {
  answer = λ h rows. inr (first_id rows);
  log = store;
  sizes = λ prefix. inr (some 1 ∷ none ∷ []);
  validate = λ event. if str_eq event.event.event_id "b" then some issues else none;
  date_parse = λ text. some 0;
  clock = λ w. 0;
  out_fails = λ done line. if length done == 2 then some (new_error "EPIPE") else none;
  err_fails = λ done line. none;
  rounds = 1;
}

abbrev options : ReplayReportOptions
options = record { prefixes = "p" ∷ "q" ∷ []; batch_size = some 2; progress_every_records = none }

described : describe_rejection issues ≡ "tenant_id: Required; (root): Invalid"
described = refl

counted_twice :
    count_reason "r" (count_reason "q" (count_reason "r" []))
    ≡ record { reason = "r"; count = 2 } ∷ record { reason = "q"; count = 1 } ∷ []
counted_twice = refl

mismatch :
    (build_replay_report (record {
      objects_read = 1;
      records_parsed = 3;
      rows_inserted = 1;
      rows_skipped = 1;
      rejection_reasons = [];
    })).exit_code
    ≡ 3
unfolding build_replay_report
mismatch = refl

returning : IsReturning setting
returning h [] ids e = let n : [] ≡ ids = cc in rw (sym n) (omega arith)
returning h (row ∷ rows) ids e = let n : row.event_id ∷ [] ≡ ids = cc in rw (sym n) (omega arith)

abbrev rows : List NewEvent
rows = accepted_rows (λ text. some 0) setting.validate (stored_events pages events ("p" ∷ "q" ∷ []))

replay_with_report-IsReconciled_example :
    Triple
      (λ s. (s.outer.inserts ≡ []) × (s.outer.out ≡ []))
      (replay_with_report (recorded setting) options)
      (λ report. HasPrinted 2 4 rows report (format_final_report_lines report))
      (IsUnfinished 2 4 rows)
replay_with_report-IsReconciled_example =
    replay_with_report-IsReconciled setting options (omega arith) returning {serve = serve}
      {pages = pages} {stored = events} (omega arith) store-IsStored
