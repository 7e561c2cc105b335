-- ===== src/Replay/Report/Reconciled.antt =====
-- The report of a replay adds up, and the database holds what it says.
use posta.Shared.Loops.{for_each-Triple}
use posta.Shared.{
  ◌≡◌, refl, sym, ap, ◌∙◌, subst, arith, append-nil, ◌==◌, ==_iff, ℕ, ◌+◌, ◌-◌, ◌≤◌, ◌<◌, String,
  true, false, List, [], ◌∷◌, ◌++◌, Option, ◌⊎◌, inl, inr, Act, length, ltb, pure,
}
use posta.Shared.Thrown.{Thrown}
use posta.Shared.Triples.{After, Triple, Triple-weaken, Triple-pure, Triple-bind}
use posta.Core.EventLog.Ndjson.{LoggedEvent, ListPage, stream_event_log}
use posta.Core.EventLog.Ndjson.Stored.{IsStored, stored_events, stream_event_log-for_each}
use posta.Batch.Rows.{NewEvent}
use posta.Replay.Reconciliation.{build_replay_report, format_final_report_lines}
use posta.Replay.Report.{
  ReplayReportOptions, rows_per_insert, max_insert_size, declare_counters, report_of,
  count_objects_under_prefixes, tally_record, run_report, replay_with_report,
}
use posta.Replay.Report.Ledger.{State, Setting, IsReturning, recorded, answered, landed_rows}
use posta.Replay.Report.Records.{accepted_rows, IsCounted as IsCounted_by, one_record}
use posta.Replay.Report.Printed.{IsReconciled, IsUnfinished, HasPrinted, printed}
use posta.Replay.Report.Steps.{IsTallied, IsStopped, flush_rows_buffered-Triple}

module _ (setting : Setting) (options : ReplayReportOptions)
    (positive : 0 < rows_per_insert options) (returning : IsReturning setting) where
  abbrev max : ℕ
  max = rows_per_insert options

  abbrev rows_of : List LoggedEvent → List NewEvent
  rows_of events = accepted_rows setting.date_parse setting.validate events

  abbrev IsCounted : List LoggedEvent → State → Type 0
  IsCounted = IsCounted_by setting options positive returning

  listed-After :
      (o : Thrown ⊎ List (Option ℕ)) (P : State → Type 0) (s : State)
      → P s
      → After (λ _. P) P (answered o) s
  listed-After (inl e) P s p = p
  listed-After (inr sizes) P s p = p

  counted_objects :
      (prefixes : List String) (n : ℕ) (P : State → Type 0)
      → Triple P (count_objects_under_prefixes (recorded setting) prefixes n) (λ _. P) P
  unfolding count_objects_under_prefixes
  counted_objects [] n P = Triple-pure n
  counted_objects (prefix ∷ prefixes) n P =
      Triple-bind _ _ (record { at = λ s p. listed-After (setting.sizes prefix) P s p })
        λ pages. counted_objects prefixes _ P

  declared :
      {E : State → Type 0}
      → Triple
          (λ s. (s.outer.inserts ≡ []) × (s.outer.out ≡ []))
          declare_counters
          (λ _. IsCounted [])
          E
  unfolding declare_counters pure
  declared = record {
    at = λ s (h, k). record {
      parsed = refl;
      judged = refl;
      kept = rw h refl;
      summed = refl;
      given = rw h refl;
      room = omega arith;
      sized = rw h tt;
      silent = k;
    };
  }

  reported :
      (objects total : ℕ) (rows : List NewEvent)
      → Triple
          (λ s. IsTallied max rows total 0 s × (s.buffer ≡ []))
          (report_of objects)
          (λ report s. IsReconciled max total rows report s.outer.inserts × (s.outer.out ≡ []))
          (IsStopped rows)
  unfolding report_of pure build_replay_report
  reported objects total rows = record {
    at = λ s (h, e).
        let sum : s.rows_inserted + s.rows_skipped ≡ s.records_parsed =
          omega (arith, h.summed, ap length e) in
        let equal : (s.rows_inserted + s.rows_skipped == s.records_parsed) ≡ true =
          (==_iff _ _).1 sum in
        (
          record {
            parsed = h.parsed;
            judged = h.judged;
            summed = sum;
            given = h.given;
            kept =
                sym (append-nil (landed_rows s.outer.inserts))
                ∙ ap (λ b. landed_rows s.outer.inserts ++ b) (sym e)
                ∙ h.kept;
            sized = h.sized;
            reconciled = equal;
            exit_code = rw equal refl;
          },
          h.silent,
        );
  }

  streamed :
      {serve : String → Option String → ListPage} {pages : String → List ListPage}
      {stored : String → List LoggedEvent}
      → IsStored setting.log setting.rounds serve pages stored
      → (objects started : ℕ)
      → let events = stored_events pages stored options.prefixes in
        Triple
          (IsCounted [])
          (stream_event_log setting.log
            (λ logged.
              tally_record
                (recorded setting)
                options
                objects
                started
                logged
                (setting.validate logged))
            setting.rounds
            options.prefixes)
          (λ _. IsCounted events)
          (IsStopped (rows_of events))
  streamed {pages = pages} {stored = stored} store objects started =
      let events = stored_events pages stored options.prefixes in
      record {
        at = λ s h.
            subst (λ r. After (λ _. IsCounted events) (IsStopped (rows_of events)) r.0 r.1)
              (sym (stream_event_log-for_each store _ options.prefixes s))
              ((for_each-Triple IsCounted _ events
                  (one_record setting options positive returning objects started events)).at
                s h);
      }

  -- Nothing has been inserted or printed.
  abbrev IsFresh : State → Type 0
  IsFresh s = (s.outer.inserts ≡ []) × (s.outer.out ≡ [])

  early :
      {A : Type 0} {P : State → Type 0} {Q : A → State → Type 0} (total : ℕ) (rows : List NewEvent)
      (m : Act State A)
      → Triple P m Q (IsStopped rows)
      → Triple P m Q (IsUnfinished max total rows)
  early total rows m t = Triple-weaken m t (λ _ p. p) (λ _ _ p. p) (λ _ p. inl p)

  fresh-IsStopped : (rows : List NewEvent) (s : State) → IsFresh s → IsStopped rows s
  fresh-IsStopped rows s (h, k) = record { first = (rows, rw h refl); silent = k }

  run_report-Triple :
      {serve : String → Option String → ListPage} {pages : String → List ListPage}
      {stored : String → List LoggedEvent}
      → IsStored setting.log setting.rounds serve pages stored
      → let events = stored_events pages stored options.prefixes in
        Triple IsFresh
          (run_report (recorded setting) options)
          (λ report.
            HasPrinted max
              (length events)
              (rows_of events)
              report
              (format_final_report_lines report))
          (IsUnfinished max (length events) (rows_of events))
  run_report-Triple {pages = pages} {stored = stored} store =
      let events = stored_events pages stored options.prefixes in
      let total = length events in
      let rows = rows_of events in
      Triple-bind _ _
        (Triple-weaken _ (counted_objects options.prefixes 0 IsFresh) (λ _ p. p) (λ _ _ p. p)
          (λ s p. inl (fresh-IsStopped rows s p)))
        λ objects.
          Triple-bind _ _ (record { at = λ s h. h })
            λ started. Triple-bind _ _ declared λ _.
              Triple-bind _ _ (early total rows _ (streamed store objects started)) λ _.
                Triple-bind _ _
                  (early total rows _ (
                    flush_rows_buffered-Triple setting max positive returning rows rows [] total
                      (max - 1) (sym (append-nil rows)) (omega arith)))
                  λ _. Triple-bind _ _ (early total rows _ (reported objects total rows)) λ report.
                    Triple-bind _ _ (printed setting max total rows report) λ _. Triple-pure report

  -- Over a store that holds batches as `serializeBatch` wrote them, none of whose texts has the character U+2028 or
  -- U+2029, with a batch size of 1 to 500, and a database that gives back at most one id for a row: `replayWithReport`
  -- ends, however the listing, the inserts and the two outputs fail. If it returns, the report is reconciled and its
  -- exit code is 0: the records parsed and those rejected are all the stored ones, those inserted and those skipped are
  -- the ones parsed, and the inserted are the ids that the database gave back. The rows of the parsed records have
  -- landed, each once and in order, in inserts of at most the batch size, and the lines printed are those of the report.
  -- If it throws, either what landed are the first of these rows and nothing was printed to standard output, or all this
  -- holds of a report of which only the first lines were printed.
  pub replay_with_report-IsReconciled :
      {serve : String → Option String → ListPage} {pages : String → List ListPage}
      {stored : String → List LoggedEvent}
      → rows_per_insert options ≤ max_insert_size
      → IsStored setting.log setting.rounds serve pages stored
      → let total = length (stored_events pages stored options.prefixes) in
        let rows =
          accepted_rows setting.date_parse setting.validate
            (stored_events pages stored options.prefixes) in
        Triple
          (λ s. (s.outer.inserts ≡ []) × (s.outer.out ≡ []))
          (replay_with_report (recorded setting) options)
          (λ report.
            HasPrinted
              (rows_per_insert options)
              total
              rows
              report
              (format_final_report_lines report))
          (IsUnfinished (rows_per_insert options) total rows)
  unfolding replay_with_report
  replay_with_report-IsReconciled small store =
      let e : ltb max_insert_size (rows_per_insert options) ≡ false = ground (arith, small) in
      rw e (run_report-Triple store)
