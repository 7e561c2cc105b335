-- ===== src/Replay/Report/Records.antt =====
-- What the loop of a report keeps, from one record to the next.
use posta.Shared.{
  ◌≡◌, sym, ap, ◌∙◌, subst, append-nil, append_assoc, map-append, ℕ, ◌+◌, ◌-◌, ◌<◌, String, Bool,
  true, false, List, [], ◌∷◌, ◌++◌, map, Option, none, some, length, length-append, select,
  select-append, if◌then◌else◌,
}
use posta.Shared.Text.{is_some}
use posta.Shared.Triples.{Triple, Triple-bind, Triple-weaken}
use posta.Core.EventLog.Ndjson.{LoggedEvent}
use posta.Batch.Rows.{NewEvent, to_new_event_row}
use posta.Replay.Reconciliation.{Issue, describe_rejection}
use posta.Replay.Report.{ReplayReportOptions, rows_per_insert, progress_every, tally_record}
use posta.Replay.Report.Ledger.{State, Setting, IsReturning, recorded}
use posta.Replay.Report.Steps.{
  IsTallied, IsStopped, accept_record-Triple, reject_record-Triple, flush_full-Triple,
  report_progress-Triple,
}

abbrev pub accepts : (LoggedEvent → Option (List Issue)) → LoggedEvent → Bool
accepts validate logged = if is_some (validate logged) then false else true

-- The rows of the records that the schema accepts.
abbrev pub accepted_rows :
    (String → Option ℕ) → (LoggedEvent → Option (List Issue)) → List LoggedEvent → List NewEvent
accepted_rows date_parse validate events =
    map (to_new_event_row date_parse) (select (accepts validate) events)

module _ (setting : Setting) (options : ReplayReportOptions)
    (positive : 0 < rows_per_insert options) (returning : IsReturning setting) where
  abbrev pub max : ℕ
  max = rows_per_insert options

  abbrev pub rows_of : List LoggedEvent → List NewEvent
  rows_of events = accepted_rows setting.date_parse setting.validate events

  -- What the loop keeps: the counts of the records that were read.
  abbrev pub IsCounted : List LoggedEvent → State → Type 0
  IsCounted done = IsTallied max (rows_of done) (length done) (max - 1)

  rows_of-append : (xs ys : List LoggedEvent) → rows_of (xs ++ ys) ≡ rows_of xs ++ rows_of ys
  rows_of-append xs ys =
      ap (map (to_new_event_row setting.date_parse))
        (select-append (accepts setting.validate) xs ys)
      ∙ map-append (to_new_event_row setting.date_parse) (select (accepts setting.validate) xs) _

  tally_record-Triple :
      (objects started : ℕ) (all rows rest : List NewEvent) (total : ℕ) (logged : LoggedEvent)
      (verdict : Option (List Issue))
      → all
        ≡ (rows
            ++ map
                (to_new_event_row setting.date_parse)
                (if (if is_some verdict then false else true) then logged ∷ [] else []))
          ++ rest
      → Triple
          (IsTallied max rows total (max - 1))
          (tally_record (recorded setting) options objects started logged verdict)
          (λ _.
            IsTallied max
              (rows
                ++ map
                    (to_new_event_row setting.date_parse)
                    (if (if is_some verdict then false else true) then logged ∷ [] else []))
              (total + 1)
              (max - 1))
          (IsStopped all)
  tally_record-Triple objects started all rows rest total logged (some issues) a =
      Triple-weaken _
        (reject_record-Triple setting max positive returning all rows (describe_rejection issues)
          total (max - 1))
        (λ _ p. p)
        (λ _ s p. subst (λ r. IsTallied max r (total + 1) (max - 1) s) (sym (append-nil rows)) p)
        (λ _ p. p)
  tally_record-Triple objects started all rows rest total logged none a =
      Triple-bind _ _
        (accept_record-Triple setting max positive returning all rows _ total (max - 1))
        λ _.
          Triple-bind _ _
            (flush_full-Triple setting max positive returning all _ rest (total + 1) a)
            λ _.
              report_progress-Triple setting max positive returning all (progress_every options)
                objects started _ rest (total + 1) (max - 1) a

  pub one_record :
      (objects started : ℕ) (all done : List LoggedEvent) (logged : LoggedEvent)
      (rest : List LoggedEvent)
      → all ≡ done ++ logged ∷ rest
      → Triple
          (IsCounted done)
          (tally_record (recorded setting) options objects started logged (setting.validate logged))
          (λ _. IsCounted (done ++ logged ∷ []))
          (IsStopped (rows_of all))
  one_record objects started all done logged rest e =
      let f = to_new_event_row setting.date_parse in
      let last = select (accepts setting.validate) (logged ∷ []) in
      let parts : rows_of all ≡ (rows_of done ++ map f last) ++ rows_of rest =
        ap rows_of (e ∙ sym (append_assoc done (logged ∷ []) rest))
        ∙ rows_of-append (done ++ logged ∷ []) rest
        ∙ ap (λ r. r ++ rows_of rest) (rows_of-append done (logged ∷ [])) in
      Triple-weaken _
        (tally_record-Triple objects started (rows_of all) (rows_of done) (rows_of rest)
          (length done) logged (setting.validate logged) parts)
        (λ _ p. p)
        (λ _ s p.
          subst (λ n. IsTallied max (rows_of (done ++ logged ∷ [])) n (max - 1) s)
            (sym (length-append done (logged ∷ [])))
            (subst (λ r. IsTallied max r (length done + 1) (max - 1) s)
              (sym (rows_of-append done (logged ∷ []))) p))
        (λ s p. p)
