-- ===== src/Batch/Flush/Tests.antt =====
-- flush.ts on one event whose link another tenant's row names too.
use posta.Shared.{◌≡◌, refl, true, List, [], ◌∷◌, Option, none, some, ok, throw}
use posta.Shared.Thrown.{Thrown, new_error}
use posta.Shared.Triples.{Triple}
use posta.Core.Enrichment.{EnrichDeps}
use posta.Batch.Samples.{event, reset_error}
use posta.Batch.Flush.{LinkRow, FlushOptions, resolve_destination, lookup, flush_batch}
use posta.Batch.Flush.Destinations.{IsOwn, resolve_destination-IsOwn}
use posta.Batch.Flush.History.{Call, put, Oracle, NoInsert}
use posta.Batch.Flush.Durability.{deps, IsAccounted, IsOrdered, flush_batch-IsAccounted}

abbrev own : LinkRow
own = record { id = "l1"; tenant_id = "t1"; destination = "https://example.com/a" }

abbrev rows : List LinkRow
rows = record { id = "l2"; tenant_id = "t2"; destination = "https://other.example" } ∷ own ∷ []

opened : Unit {0}
unfolding resolve_destination lookup
opened = tt

own_destination : (resolve_destination rows (event "a")).destination ≡ some "https://example.com/a"
unfolding opened
own_destination = refl

-- A link of another tenant gives nothing.
foreign_destination :
    (resolve_destination (record own { tenant_id = "t2" } ∷ []) (event "a")).destination ≡ none
unfolding opened
foreign_destination = refl

resolve_destination-IsOwn_example :
    (row : LinkRow) × IsOwn rows (event "a") "https://example.com/a" row
resolve_destination-IsOwn_example =
    resolve_destination-IsOwn rows (event "a") "https://example.com/a" own_destination

abbrev parsers : EnrichDeps
parsers = record {
  parse_ua = λ ua. throw (new_error "unknown");
  url_hostname = λ text. ok "example.com";
}

-- Each PUT fails, everything else succeeds.
abbrev put_fails : Call → Option Thrown
put_fails (put bucket key body) = some reset_error
put_fails _ = none

abbrev oracle : Oracle
oracle = record { fails = λ h c. put_fails c; rows = λ h. rows; id = λ h. "b" }

abbrev options : FlushOptions
options = record { r2_bucket = "events"; max_attempts = none; initial_delay_ms = none }

flush_batch-IsAccounted_example :
    Triple NoInsert
      (flush_batch
        (deps oracle true (λ text. some 0) parsers options (event "a") (event "b" ∷ []))
        options
        (event "a" ∷ event "b" ∷ [])
        none)
      (λ _. IsAccounted oracle true (λ text. some 0) parsers options (event "a") (event "b" ∷ []))
      (IsOrdered oracle true (λ text. some 0) parsers options (event "a") (event "b" ∷ []))
flush_batch-IsAccounted_example =
    flush_batch-IsAccounted oracle true (λ text. some 0) parsers options (event "a")
      (event "b" ∷ []) none
