-- ===== src/Replay/Command/Runs.antt =====
-- A dry run and a real run, once the arguments are read.
use posta.Shared.Loops.{for_each-Triple}
use posta.Shared.{
  ◌≡◌, refl, sym, ap, ◌∙◌, subst, arith, append-nil, ℕ, ◌+◌, ◌<◌, String, Bool, true, false, List,
  [], ◌∷◌, ◌++◌, Option, none, some, length, length-append, select, select-append, or_else,
  if◌then◌else◌, inl, Outcome, pure, ◌==◌, ltb, ◌||◌,
}
use posta.Shared.Thrown.{Thrown}
use posta.Shared.Recording.{History, reply}
use posta.Shared.Triples.{After, Triple, Triple-pure, Triple-bind, Triple-weaken, Triple-if}
use posta.Core.EventLog.Ndjson.{LoggedEvent, ListPage}
use posta.Core.EventLog.Ndjson.Stored.{IsStored, stored_events, stream_event_log-for_each}
use posta.Batch.Rows.{NewEvent}
use posta.Replay.Driver.History.{landed, IsPrefix}
use posta.Replay.Driver.Steps.{State, Setting}
use posta.Replay.Driver.Rows.{replay_event_log-Lands}
use posta.Replay.Arguments.{ArgValues, ReplayCliOptions}
use posta.Replay.Arguments.Valid.{IsBatchSize}
use posta.Replay.Command.{
  ReplayCliDeps, matches_tenant, warn_if_tenant_matched_nothing, count_dry, reset_dry, report_dry,
  dry_run, real_run,
}
use posta.Replay.Command.Outcomes.{printing, driver_options, rows_of, HasRun}

print_reply :
    (o : Option Thrown) (P : State → Type 0) (s : State) → P s → After (λ _. P) P (reply o tt) s
print_reply none P s p = p
print_reply (some e) P s p = p

positive : (size : Option ℕ) → IsBatchSize size → 0 < or_else size 500
positive none h = omega arith
positive (some n) h = omega arith

counted :
    (b : Bool) (logged : LoggedEvent) (n m : ℕ)
    → n ≡ m
    → (if b then n + 1 else n) ≡ m + length (if b then logged ∷ [] else [])
counted true logged n m e = omega arith
counted false logged n m e = omega arith

module _ (setting : Setting) (prints warns : String → Option Thrown)
    (parse_args : List String → Outcome ArgValues) {serve : String → Option String → ListPage}
    (pages : String → List ListPage) (stored : String → List LoggedEvent)
    (store : IsStored setting.log setting.rounds serve pages stored) where
  abbrev pub cli : ReplayCliDeps (History (List NewEvent))
  cli = printing setting prints warns parse_args

  print-Triple : (P : State → Type 0) (line : String) → Triple P (cli.stdout line) (λ _. P) P
  print-Triple P line = record { at = λ s p. print_reply (prints line) P s p }

  warn-Triple :
      (P : State → Type 0) (tenant : Option String) (read matched : ℕ)
      → Triple P (warn_if_tenant_matched_nothing cli tenant read matched) (λ _. P) P
  unfolding warn_if_tenant_matched_nothing
  warn-Triple P none read matched = Triple-pure tt
  warn-Triple P (some tenant) read matched =
      Triple-if (read == 0 || ltb 0 matched) _ _ (Triple-pure tt)
        (record { at = λ s p. print_reply (warns _) P s p })

  -- The records of a tenant.
  abbrev matching : ReplayCliOptions → List LoggedEvent → List LoggedEvent
  matching options events = select (matches_tenant options.tenant_id) events

  record IsCounted (options : ReplayCliOptions) (done : List LoggedEvent) (s : State) : Type 0 where
    nothing : s.outer ≡ []
    read : s.total_read ≡ length done
    matched : s.matched_count ≡ length (matching options done)

  count_dry-Triple :
      {E : State → Type 0} (options : ReplayCliOptions) (done : List LoggedEvent)
      (logged : LoggedEvent)
      → Triple
          (IsCounted options done)
          (count_dry cli options.tenant_id logged)
          (λ _. IsCounted options (done ++ logged ∷ []))
          E
  unfolding count_dry pure
  count_dry-Triple options done logged = record {
    at = λ s h. record {
      nothing = h.nothing;
      read = rw (length-append done (logged ∷ [])) (omega (arith, h.read));
      matched =
          rw
            (
              select-append (matches_tenant options.tenant_id) done (logged ∷ []),
              length-append (matching options done) (matching options (logged ∷ [])),
            )
            (counted (matches_tenant options.tenant_id logged) logged s.matched_count _ h.matched);
    };
  }

  report_dry-Triple :
      (options : ReplayCliOptions) (prefixes : List String)
      → Triple
          (IsCounted options (stored_events pages stored prefixes))
          (report_dry cli options.tenant_id)
          (HasRun setting pages stored true options prefixes)
          (λ s. s.outer ≡ [])
  unfolding report_dry
  report_dry-Triple options prefixes = record {
    at = λ s h.
        (Triple-bind _ _
            (warn-Triple (λ t. t.outer ≡ []) options.tenant_id s.total_read s.matched_count)
            λ _. Triple-bind _ _ (print-Triple (λ t. t.outer ≡ []) _) λ _.
              Triple-weaken _
                (Triple-pure {Q = HasRun setting pages stored true options prefixes} _)
                (λ t n. (n, inl (refl, ap some h.matched))) (λ _ _ p. p) (λ _ p. p)).at
          s h.nothing;
  }

  reset_dry-Triple :
      {E : State → Type 0} (options : ReplayCliOptions)
      → Triple (λ s. s.outer ≡ []) (reset_dry cli) (λ _. IsCounted options []) E
  unfolding reset_dry pure
  reset_dry-Triple options = record {
    at = λ s h. record { nothing = h; read = refl; matched = refl };
  }

  pub dry_run-Triple :
      (options : ReplayCliOptions) (prefixes : List String)
      → Triple
          (λ s. s.outer ≡ [])
          (dry_run cli options prefixes)
          (HasRun setting pages stored true options prefixes)
          (λ s. s.outer ≡ [])
  unfolding dry_run
  dry_run-Triple options prefixes =
      let events = stored_events pages stored prefixes in
      Triple-bind _ _ (reset_dry-Triple options) λ _.
        Triple-bind _ _
          (record {
            at = λ s h.
                subst (λ r. After (λ _. IsCounted options events) (λ s. s.outer ≡ []) r.0 r.1)
                  (sym (stream_event_log-for_each store _ prefixes s))
                  ((for_each-Triple (IsCounted options) _ events
                      (λ done logged rest e. count_dry-Triple options done logged)).at
                    s h);
          })
          λ _. report_dry-Triple options prefixes

  -- What holds where a real run fails.
  abbrev pub IsFirst : ReplayCliOptions → List String → State → Type 0
  IsFirst options prefixes s =
      IsPrefix (landed s.outer) (rows_of setting pages stored options prefixes)

  pub real_run-Triple :
      (options : ReplayCliOptions) (prefixes : List String)
      → IsBatchSize options.batch_size
      → Triple
          (λ s. s.outer ≡ [])
          (real_run cli options prefixes)
          (HasRun setting pages stored false options prefixes)
          (IsFirst options prefixes)
  unfolding real_run
  real_run-Triple options prefixes size =
      let rows = rows_of setting pages stored options prefixes in
      Triple-bind _ _
        (Triple-weaken _
          (replay_event_log-Lands setting (driver_options options prefixes)
            (positive options.batch_size size) store)
          (λ _ p. p) (λ _ s p. p.kept) (λ s p. p.first))
        λ summary.
          Triple-bind _ _
            (Triple-weaken _
              (warn-Triple (λ s. landed s.outer ≡ rows) options.tenant_id summary.records_read
                summary.batches_written)
              (λ _ p. p) (λ _ _ p. p) (λ s p. ([], sym (append-nil _ ∙ p))))
            λ _.
              Triple-bind _ _
                (Triple-weaken _ (print-Triple (λ s. landed s.outer ≡ rows) _) (λ _ p. p)
                  (λ _ _ p. p) (λ s p. ([], sym (append-nil _ ∙ p))))
                λ _.
                  Triple-weaken _
                    (Triple-pure {Q = HasRun setting pages stored false options prefixes} _)
                    (λ s p. inl (refl, p)) (λ _ _ p. p) (λ _ p. p)
