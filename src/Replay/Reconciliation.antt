-- ===== src/Replay/Reconciliation.antt =====
-- apps/worker/src/cli/replay-report.ts: what a replay counts, and the report that is made of it.
use posta.Shared.{
  ℕ, ◌+◌, ◌-◌, String, Bool, List, [], ◌∷◌, ◌++◌, map, length, if◌then◌else◌, leb, ◌==◌, str_eq,
}
use posta.Shared.Text.{concat, join, show}

pub record Issue : Type 0 where
  pub path : List String
  pub message : String

pub record RejectionReasonCount : Type 0 where
  pub reason : String
  pub count : ℕ

pub record ReplayCounts : Type 0 where
  pub objects_read : ℕ
  pub records_parsed : ℕ
  pub rows_inserted : ℕ
  pub rows_skipped : ℕ
  pub rejection_reasons : List RejectionReasonCount

pub record ReplayReport : Type 0 where
  pub counts : ReplayCounts
  pub rows_rejected : ℕ
  pub reconciled : Bool
  pub exit_code : ℕ

abbrev pub exit_reconciled : ℕ
exit_reconciled = 0

abbrev pub exit_reconciliation_mismatch : ℕ
exit_reconciliation_mismatch = 3

abbrev pub describe_issue : Issue → String
describe_issue issue = concat (
    (if leb (length issue.path) 0 then "(root)" else join "." issue.path)
    ∷ ": "
    ∷ issue.message
    ∷ [])

abbrev pub describe_rejection : List Issue → String
describe_rejection issues = join "; " (map describe_issue issues)

abbrev pub sum_counts : List RejectionReasonCount → ℕ
sum_counts [] = 0
sum_counts (entry ∷ entries) = entry.count + sum_counts entries

unfoldable pub build_replay_report : ReplayCounts → ReplayReport
build_replay_report counts = record {
  counts = counts;
  rows_rejected = sum_counts counts.rejection_reasons;
  reconciled = counts.rows_inserted + counts.rows_skipped == counts.records_parsed;
  exit_code =
      if counts.rows_inserted + counts.rows_skipped == counts.records_parsed
      then exit_reconciled
      else exit_reconciliation_mismatch;
}

-- The time between two readings of a clock, which can go back.
abbrev pub elapsed : ℕ → ℕ → String
elapsed started now =
    if leb started now then show (now - started) else concat ("-" ∷ show (started - now) ∷ [])

pub format_progress_line : (objects_read records_parsed : ℕ) → (elapsed_ms : String) → String
format_progress_line objects_read records_parsed elapsed_ms = concat (
    "posta replay-report: progress — objects read: "
    ∷ show objects_read
    ∷ ", records parsed: "
    ∷ show records_parsed
    ∷ ", elapsed: "
    ∷ elapsed_ms
    ∷ "ms"
    ∷ [])

abbrev pub rejection_line : RejectionReasonCount → String
rejection_line entry =
    concat ("posta replay-report:   rejected (" ∷ show entry.count ∷ "x): " ∷ entry.reason ∷ [])

abbrev pub verdict_line : ReplayReport → String
verdict_line report =
    let c = report.counts in
    if report.reconciled
    then concat (
        "posta replay-report: reconciliation OK — inserted ("
        ∷ show c.rows_inserted
        ∷ ") + skipped ("
        ∷ show c.rows_skipped
        ∷ ") = parsed ("
        ∷ show c.records_parsed
        ∷ ")"
        ∷ [])
    else concat (
        "posta replay-report: RECONCILIATION MISMATCH — inserted ("
        ∷ show c.rows_inserted
        ∷ ") + skipped ("
        ∷ show c.rows_skipped
        ∷ ") ≠ parsed ("
        ∷ show c.records_parsed
        ∷ "); replay exits non-zero rather than report a rebuild that may have silently lost rows"
        ∷ [])

pub format_final_report_lines : ReplayReport → List String
format_final_report_lines report =
    let c = report.counts in
    concat ("posta replay-report: objects read: " ∷ show c.objects_read ∷ [])
    ∷ concat ("posta replay-report: records parsed: " ∷ show c.records_parsed ∷ [])
    ∷ concat ("posta replay-report: rows inserted: " ∷ show c.rows_inserted ∷ [])
    ∷ concat ("posta replay-report: rows skipped (already present): " ∷ show c.rows_skipped ∷ [])
    ∷ concat ("posta replay-report: rows rejected: " ∷ show report.rows_rejected ∷ [])
    ∷ (map rejection_line c.rejection_reasons ++ verdict_line report ∷ [])

-- `rejectionCounts.set(reason, (rejectionCounts.get(reason) ?? 0) + 1)`, of a map in the order of its first entries.
abbrev pub count_reason : String → List RejectionReasonCount → List RejectionReasonCount
count_reason reason [] = record { reason = reason; count = 1 } ∷ []
count_reason reason (entry ∷ entries) =
    let rest = count_reason reason entries in
    if str_eq entry.reason reason
    then record entry { count = entry.count + 1 } ∷ entries
    else entry ∷ rest
