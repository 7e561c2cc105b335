-- ===== src/Consumer/Shutdown/Tests.antt =====
-- A worker with jobs that wait and events in a batch: a sleep flushes the batch and moves the jobs into the next.
use posta.Shared.{◌≡◌, refl, arith, ℕ, ◌+◌, ◌*◌, ◌≤◌, ◌<◌, ◌⊎◌, ok, try_catch, ◌>>=◌}
use posta.Shared.Triples.{Triple}
use posta.Consumer.Shutdown.{
  ShutdownDeps, drain_round, drain_loop, drain, with_timeout, safe_log, on_module_destroy,
}
use posta.Consumer.Shutdown.Drained.{
  IsDrained, IsLogging, IsProgressing, on_module_destroy-Settles, drain-Drains,
}

record Work : Type 0 where
  waiting : ℕ
  batched : ℕ
  lines : ℕ

abbrev left : Work → ℕ
left w = 2 * w.waiting + w.batched

abbrev worker : ShutdownDeps Work
worker = record {
  pause = λ w. (ok tt, w);
  pending_job_count = λ w. w.waiting + w.batched;
  flush_now = λ w. (ok tt, record w { batched = 0 });
  size = λ w. w.batched;
  sleep = λ ms w. (ok tt, record w { waiting = 0; batched = w.waiting });
  log_error = λ l w. (ok tt, record w { lines = w.lines + 1 });
  shutdown_timeout_ms = 1000;
}

abbrev loaded : Work
loaded = record { waiting = 3; batched = 2; lines = 0 }

-- Two rounds are enough here; one is not, and is logged.
drain-two : (on_module_destroy worker 2 loaded).1 ≡ record { waiting = 0; batched = 0; lines = 0 }
unfolding on_module_destroy drain drain_loop drain_round with_timeout safe_log ◌>>=◌ try_catch
drain-two = refl

drain-one : (on_module_destroy worker 1 loaded).1.lines ≡ 1
unfolding on_module_destroy drain drain_loop drain_round with_timeout safe_log ◌>>=◌ try_catch
drain-one = refl

worker-IsProgressing : IsProgressing left worker
worker-IsProgressing = record {
  pauses = λ n. record { at = λ w h. h };
  flushes = λ n. record { at = λ w (b, h). (omega arith, λ e. omega arith) };
  sleeps = λ n. record { at = λ w (b, h). omega arith };
  idles = λ w h. ground arith;
}

worker-IsLogging : IsLogging (λ w. 0 < w.lines) worker
worker-IsLogging = record { logs = λ l. record { at = λ w h. omega arith } }

on_module_destroy-Settles_example :
    Triple
      (λ _. Unit {0})
      (on_module_destroy worker 1)
      (λ _ w. IsDrained worker w ⊎ (0 < w.lines))
      (λ _. ⊥)
on_module_destroy-Settles_example = on_module_destroy-Settles worker worker-IsLogging 1

drain-Drains_example :
    Triple (λ w. left w ≤ 8) (drain worker 8) (λ _ w. IsDrained worker w) (λ _. ⊥)
drain-Drains_example = drain-Drains worker left worker-IsProgressing 8
