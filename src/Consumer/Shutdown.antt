-- ===== src/Consumer/Shutdown.antt =====
-- apps/worker/src/consumer/shutdown.ts: class ShutdownService. The consumer, the accumulator and the logger are
-- parameters that act on the world. The timer is the fuel of the drain loop: `rounds` is the number of its rounds
-- that begin before the timer fires, and the drain is `stuck` where the timer comes first. The drain that goes
-- on after that, with nobody waiting for it, is left out.
pub mod Drained
mod Tests
use posta.Shared.{
  ℕ, zero, suc, String, Bool, ◌||◌, List, [], ◌∷◌, if◌then◌else◌, ltb, Act, Outcome, ok, throw,
  pure, no_fuel, try_catch, ◌>>=◌, ◌>>◌,
}
use posta.Shared.Text.{concat, show}
use posta.Shared.Thrown.{Thrown, error_message}

abbrev pub drain_poll_interval_ms : ℕ
drain_poll_interval_ms = 20

pub data ShutdownLog : Type 0 where
  timed_out : (message : String) (timeout_ms : ℕ) → ShutdownLog
  failed : (message : String) → ShutdownLog

pub record ShutdownDeps (W : Type 0) : Type 0 where
  -- `eventsConsumer.worker.pause(true)`, `eventsConsumer.pendingJobCount`
  pub pause : Act W (Unit {0})
  pub pending_job_count : W → ℕ
  -- `accumulator.flushNow()`, `accumulator.size()`
  pub flush_now : Act W (Unit {0})
  pub size : W → ℕ
  pub sleep : ℕ → Act W (Unit {0})
  pub log_error : ShutdownLog → Act W (Unit {0})
  pub shutdown_timeout_ms : ℕ

-- How the race of the drain with the timer ends; a time-out is a `ShutdownTimeoutError`.
pub data ShutdownResult : Type 0 where
  drained : ShutdownResult
  exceeded : ShutdownResult
  broken : Thrown → ShutdownResult

module _ {W : Type 0} (deps : ShutdownDeps W) where
  -- The test of the loop.
  abbrev pub is_busy : W → Bool
  is_busy w = ltb 0 (deps.pending_job_count w) || ltb 0 (deps.size w)

  abbrev pub wait_for_jobs : Act W (Unit {0})
  wait_for_jobs w =
      if ltb 0 (deps.pending_job_count w) then deps.sleep drain_poll_interval_ms w else pure tt w

  pub drain_round : Act W (Unit {0})
  drain_round = do deps.flush_now; wait_for_jobs

  pub drain_loop : ℕ → Act W (Unit {0})
  drain_loop zero w = if is_busy w then no_fuel w else pure tt w
  drain_loop (suc rounds) w =
      let more = (drain_round >>= λ _. drain_loop rounds) w in if is_busy w then more else pure tt w

  pub drain : ℕ → Act W (Unit {0})
  drain rounds = do deps.pause; drain_loop rounds

  abbrev pub settled : Outcome (Unit {0}) → W → Outcome ShutdownResult × W
  settled (ok _) w = (ok drained, w)
  settled (throw e) w = (ok (broken e), w)
  settled Outcome.stuck w = (ok exceeded, w)

  -- The race, with its answer as a value.
  pub with_timeout : Act W (Unit {0}) → Act W ShutdownResult
  with_timeout m w = let (r, w') = m w in settled r w'

  abbrev pub timeout_message : String
  timeout_message = concat (
      "Shutdown sequence exceeded SHUTDOWN_TIMEOUT_MS=" ∷ show deps.shutdown_timeout_ms ∷ "ms" ∷ [])

  pub safe_log : ShutdownLog → Act W (Unit {0})
  safe_log l = try_catch (deps.log_error l) (λ e. pure tt)

  abbrev pub after_drain : ShutdownResult → Act W (Unit {0})
  after_drain drained = pure tt
  after_drain exceeded = safe_log (timed_out timeout_message deps.shutdown_timeout_ms)
  after_drain (broken e) = safe_log (failed (error_message e))

  pub on_module_destroy : ℕ → Act W (Unit {0})
  on_module_destroy rounds = do result ← with_timeout (drain rounds); after_drain result
