-- ===== src/Consumer/Events/Tests.antt =====
-- A job that is an event, one that is not, and another job that begins while the first waits.
use posta.Shared.{
  ◌≡◌, refl, arith, ℕ, zero, suc, ◌+◌, false, [], ◌∷◌, Option, none, some, ok, throw, try_catch,
  try_finally, ◌>>=◌,
}
use posta.Shared.Thrown.{Thrown, new_error}
use posta.Shared.Recording.{History}
use posta.Shared.Triples.{Triple}
use posta.Contracts.Samples.{event}
use posta.Consumer.Events.{
  Job, ZodError, SafeParse, success, failure, ConsumerDeps, count_in, count_out, safe_log,
  route_to_dlq, handle_event, process, on_failed,
}
use posta.Consumer.Events.InFlight.{IsCounting, IsShared, process-IsCounting}
use posta.Consumer.Events.Routing.{
  Call, handled, sent, logged, Oracle, State, recorded, delivery, Succeeded, Failed, Fresh,
  process-Delivers,
}
use posta.Consumer.Events.Failures.{last_letter, Reported, on_failed-Reported}

abbrev zod_error : ZodError
zod_error = record {
  issues = record { path = "links" ∷ "0" ∷ []; message = "Required"; code = "invalid_type" } ∷ [];
  thrown = new_error "invalid";
}

abbrev parse : ℕ → SafeParse
parse zero = failure zod_error
parse (suc n) = success (event "e1")

-- The sink and the logger fail, the dead letters do not.
abbrev answers : History (Call ℕ) → Call ℕ → Option Thrown
answers h (handled e) = some (new_error "full")
answers h (sent reason payload e meta) = none
answers h (logged l) = some (new_error "no space")

abbrev oracle : Oracle ℕ
oracle = record { fails = answers; safe_parse = parse; redact = λ text. text }

abbrev good : Job ℕ
good = record { payload = 1; id = some "7"; attempts = some 5; attempts_made = 2 }

abbrev bad : Job ℕ
bad = record { payload = 0; id = none; attempts = some 5; attempts_made = 5 }

abbrev idle : State ℕ
idle = record { in_flight_job_count = 0; outer = [] }

process-good : (process (recorded oracle) good idle).0 ≡ throw (new_error "full")
unfolding ◌>>=◌ try_catch try_finally process count_in count_out safe_log handle_event
process-good = refl

process-bad : (process (recorded oracle) bad idle).0 ≡ ok tt
unfolding ◌>>=◌ try_catch try_finally process count_in count_out safe_log route_to_dlq
process-bad = refl

process-Delivers_example :
    Triple Fresh
      (process (recorded oracle) bad)
      (λ _. Succeeded (delivery bad (failure zod_error)))
      (Failed (delivery bad (failure zod_error)))
process-Delivers_example = process-Delivers oracle bad

on_failed-Reported_example :
    Triple Fresh
      (on_failed (recorded oracle) bad (new_error "full"))
      (λ _. Reported false (last_letter bad (new_error "full") (failure zod_error)))
      (λ _. ⊥)
on_failed-Reported_example = on_failed-Reported oracle bad (new_error "full")

-- The world holds the number of the other jobs; each call of the sink lets one begin.
abbrev busy : ConsumerDeps ℕ ℕ
busy = record {
  safe_parse = parse;
  handle = λ event s.
      (ok tt, record { in_flight_job_count = s.in_flight_job_count + 1; outer = s.outer + 1 });
  send = λ reason payload e meta s. (throw e, s);
  log_error = λ l s. (throw (new_error "no space"), s);
  redact = λ text. text;
}

busy-IsShared : IsShared (λ n. n) busy
busy-IsShared = record {
  handles = λ event. record { at = λ s h. omega (arith, h) };
  sends = λ reason payload e meta. record { at = λ s h. h };
  logs = λ l. record { at = λ s h. h };
}

process-IsCounting_example :
    Triple
      (IsCounting (λ n. n) 0)
      (process busy good)
      (λ _. IsCounting (λ n. n) 0)
      (IsCounting (λ n. n) 0)
process-IsCounting_example = process-IsCounting (λ n. n) busy busy-IsShared good
