-- ===== src/Consumer/Events/InFlight.antt =====
-- The count of jobs in flight, while other jobs come and go.
use posta.Shared.{arith, ◌≡◌, ℕ, ◌+◌, Act, pure, raise, try_catch, ◌>>◌}
use posta.Shared.Thrown.{Thrown}
use posta.Shared.Triples.{
  Triple, Triple-pure, Triple-raise, Triple-bind, Triple-try_catch, Triple-try_finally,
}
use posta.Contracts.Capture.{CaptureEvent}
use posta.Consumer.Events.{
  Job, SafeParse, success, failure, DlqReason, DlqPayload, DlqSendMeta, ConsumerLog, Consumer,
  ConsumerDeps, count_in, count_out, safe_log, route_to_dlq, handle_event, dispatch, process,
}

-- The count is that of `mine` jobs and of the others.
abbrev pub IsCounting : {V : Type 0} → (V → ℕ) → ℕ → Consumer V → Type 0
IsCounting others mine s = s.in_flight_job_count ≡ mine + others s.outer

-- While a job waits for a collaborator, other jobs may begin and end; each is counted as long as it runs.
pub record IsShared {V D : Type 0} (others : V → ℕ) (deps : ConsumerDeps V D) : Type 0 where
  pub handles :
      (event : CaptureEvent)
      → Triple
          (IsCounting others 1)
          (deps.handle event)
          (λ _. IsCounting others 1)
          (IsCounting others 1)
  pub sends :
      (reason : DlqReason) (payload : DlqPayload D) (e : Thrown) (meta : DlqSendMeta)
      → Triple
          (IsCounting others 1)
          (deps.send reason payload e meta)
          (λ _. IsCounting others 1)
          (IsCounting others 1)
  pub logs :
      (l : ConsumerLog)
      → Triple
          (IsCounting others 1)
          (deps.log_error l)
          (λ _. IsCounting others 1)
          (IsCounting others 1)

module _ {V D : Type 0} (others : V → ℕ) (deps : ConsumerDeps V D)
    (shared : IsShared others deps) where
  abbrev Runs : Act (Consumer V) (Unit {0}) → Type 0
  Runs m = Triple (IsCounting others 1) m (λ _. IsCounting others 1) (IsCounting others 1)

  safe_log-Runs : (l : ConsumerLog) → Runs (safe_log deps l)
  unfolding safe_log
  safe_log-Runs l = Triple-try_catch _ _ (shared.logs l) (λ e. Triple-pure tt)

  guarded-Runs :
      (m : Act (Consumer V) (Unit {0})) (l : Thrown → ConsumerLog)
      → Runs m
      → Runs (try_catch m (λ e. do safe_log deps (l e); raise e))
  guarded-Runs m l t =
      Triple-try_catch _ _ t (λ e. Triple-bind _ _ (safe_log-Runs (l e)) λ _. Triple-raise e)

  dispatch-Runs : (job : Job D) (p : SafeParse) → Runs (dispatch deps job p)
  unfolding route_to_dlq handle_event
  dispatch-Runs job (failure e) =
      Triple-bind _ _ (guarded-Runs _ _ (shared.sends _ _ _ _)) λ _. safe_log-Runs _
  dispatch-Runs job (success event) = guarded-Runs _ _ (shared.handles event)

  enters : Triple (IsCounting others 0) count_in (λ _. IsCounting others 1) (IsCounting others 0)
  unfolding count_in pure
  enters = record { at = λ s h. omega (arith, h) }

  leaves :
      {E : Consumer V → Type 0}
      → Triple (IsCounting others 1) count_out (λ _. IsCounting others 0) E
  unfolding count_out pure
  leaves = record { at = λ s h. omega (arith, h) }

  -- However other jobs begin and end while one waits for the sink, the dead letters or the logger, and whether
  -- these answer or throw: `process` comes to an end, and once it returns or throws, its job is no longer counted
  -- and each of the others still is.
  pub process-IsCounting :
      (job : Job D)
      → Triple
          (IsCounting others 0)
          (process deps job)
          (λ _. IsCounting others 0)
          (IsCounting others 0)
  unfolding process
  process-IsCounting job = Triple-bind _ _ enters λ _.
      Triple-try_finally _ _ (dispatch-Runs job (deps.safe_parse job.payload)) (λ _. leaves) leaves
