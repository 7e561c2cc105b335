-- ===== src/Replay/Report/Printed.antt =====
-- What the last lines of a report keep.
use posta.Shared.Loops.{for_each-Triple, for_each}
use posta.Shared.{
  ◌≡◌, sym, ap, ◌∙◌, ℕ, ◌+◌, String, true, List, [], ◌∷◌, ◌++◌, Option, none, some, ◌⊎◌, inr,
  length,
}
use posta.Shared.Thrown.{Thrown}
use posta.Shared.Triples.{After, Triple}
use posta.Batch.Rows.{NewEvent}
use posta.Replay.Reconciliation.{ReplayReport, format_final_report_lines}
use posta.Replay.Report.Ledger.{
  State, Setting, Inserts, print_out, printed_or, add_out, landed_rows, returned, IsSized,
}
use posta.Replay.Report.Steps.{IsStopped}

-- The report and the database: each record is parsed or rejected, each parsed one inserted or skipped; its row is in
-- one of the inserts, in order, which gave back as many ids as are called inserted.
pub record IsReconciled (max : ℕ) (total : ℕ) (rows : List NewEvent) (report : ReplayReport)
    (inserts : Inserts) : Type 0 where
  pub parsed : report.counts.records_parsed ≡ length rows
  pub judged : report.counts.records_parsed + report.rows_rejected ≡ total
  pub summed :
      report.counts.rows_inserted + report.counts.rows_skipped ≡ report.counts.records_parsed
  pub given : report.counts.rows_inserted ≡ returned inserts
  pub kept : landed_rows inserts ≡ rows
  pub sized : IsSized max inserts
  pub reconciled : report.reconciled ≡ true
  pub exit_code : report.exit_code ≡ 0

-- The report was made, and printing it failed: the lines that were printed are the first of it.
pub record IsCut (max total : ℕ) (rows : List NewEvent) (s : State) : Type 0 where
  pub report : ReplayReport
  pub made : IsReconciled max total rows report s.outer.inserts
  pub rest : List String
  pub lines : format_final_report_lines report ≡ s.outer.out ++ rest

-- What holds where a replay throws.
abbrev pub IsUnfinished : (max total : ℕ) → List NewEvent → State → Type 0
IsUnfinished max total rows s = IsStopped rows s ⊎ IsCut max total rows s

-- The report was made, and these lines were printed.
abbrev pub HasPrinted :
    (max total : ℕ) → List NewEvent → ReplayReport → List String → State → Type 0
HasPrinted max total rows report lines s =
    IsReconciled max total rows report s.outer.inserts × (s.outer.out ≡ lines)

module _ (setting : Setting) (max total : ℕ) (rows : List NewEvent) (report : ReplayReport) where
  print_out-After :
      (o : Option Thrown) (done rest : List String) (line : String) (s : State)
      → format_final_report_lines report ≡ done ++ line ∷ rest
      → HasPrinted max total rows report done s
      → After
          (λ _. HasPrinted max total rows report (done ++ line ∷ []))
          (IsUnfinished max total rows)
          (printed_or o (add_out line s) s).0
          (printed_or o (add_out line s) s).1
  print_out-After none done rest line s e (h, k) = (h, ap (λ o. o ++ line ∷ []) k)
  print_out-After (some x) done rest line s e (h, k) = inr (record {
    report = report;
    made = h;
    rest = line ∷ rest;
    lines = e ∙ ap (λ o. o ++ line ∷ rest) (sym k);
  })

  pub printed :
      Triple
        (HasPrinted max total rows report [])
        (for_each (print_out setting) (format_final_report_lines report))
        (λ _. HasPrinted max total rows report (format_final_report_lines report))
        (IsUnfinished max total rows)
  printed =
      for_each-Triple (HasPrinted max total rows report) (print_out setting)
        (format_final_report_lines report)
        λ done line rest e. record { at = λ s h. print_out-After _ done rest line s e h }
