-- ===== src/Consumer/Events/Failures.antt =====
-- What becomes of a job that has failed for the last time, in the same world.
use posta.Shared.{
  ◌≡◌, refl, Bool, true, false, [], ◌∷◌, Option, none, some, or_else, ltb, if◌then◌else◌, Act, pure,
}
use posta.Shared.Thrown.{Thrown}
use posta.Shared.Triples.{Triple, Caught, Triple-pure, Triple-bind, Triple-caught, Triple-weaken}
use posta.Consumer.Events.{
  Job, SafeParse, success, failure, schema_validation_failed, attempts_exhausted, raw, parsed,
  to_dlq_issues, original_job_id, send_exhausted, after_exhausted, on_failed,
}
use posta.Consumer.Events.Routing.{
  Call, sent, Oracle, State, recorded, deliveries, Succeeded, Failed, Fresh, answered-Triple,
  log-Failed-Triple, log-Succeeded-Triple,
}

module _ {D : Type 0} where
  -- The letter of a job whose attempts are used up.
  abbrev pub last_letter : Job D → Thrown → SafeParse → Call D
  last_letter job e (success event) = sent attempts_exhausted (parsed event) e (record {
    original_job_id = original_job_id job;
    attempts_made = job.attempts_made;
    issues = none;
  })
  last_letter job e (failure z) = sent schema_validation_failed (raw job.payload) e (record {
    original_job_id = original_job_id job;
    attempts_made = job.attempts_made;
    issues = some (to_dlq_issues z.issues);
  })

  -- The letter was tried, with or without success.
  abbrev pub Tried : Call D → State D → Type 0
  Tried c s = (o : Option Thrown) × (deliveries s ≡ (c, o) ∷ [])

  -- Nothing was sent where a job has attempts left, otherwise the letter was tried.
  abbrev pub Reported : Bool → Call D → State D → Type 0
  Reported true c s = Fresh s
  Reported false c s = Tried c s

module _ {D : Type 0} (oracle : Oracle D) where
  send_exhausted-Triple :
      (job : Job D) (e : Thrown) (p : SafeParse)
      → Triple Fresh
          (send_exhausted (recorded oracle) job e p)
          (λ _. Succeeded (last_letter job e p))
          (Failed (last_letter job e p))
  send_exhausted-Triple job e (success event) = answered-Triple oracle _ (λ o. refl)
  send_exhausted-Triple job e (failure z) = answered-Triple oracle _ (λ o. refl)

  after_exhausted-Triple :
      (job : Job D) (c : Call D) (answer : Option Thrown)
      → Triple
          (Caught (Succeeded c) (Failed c) answer)
          (after_exhausted (recorded oracle) job answer)
          (λ _. Tried c)
          (λ _. ⊥)
  after_exhausted-Triple job c none =
      Triple-weaken _ (log-Succeeded-Triple oracle _ c) (λ _ p. p) (λ _ w p. (none, p)) (λ w n. n)
  after_exhausted-Triple job c (some x) =
      Triple-weaken _ (log-Failed-Triple oracle _ c) (λ _ p. p) (λ _ w (y, p). (some y, p))
        (λ w n. n)

  report-Triple :
      (left : Bool) (c : Call D) (m : Act (State D) (Unit {0}))
      → Triple Fresh m (λ _. Tried c) (λ _. ⊥)
      → Triple Fresh (if left then pure tt else m) (λ _. Reported left c) (λ _. ⊥)
  report-Triple true c m t = Triple-pure tt
  report-Triple false c m t = t

  -- `onFailed` never throws, whatever the dead letters and the logger answer. It sends nothing while the job has
  -- attempts left, and one letter, which it tries once, when it has none.
  pub on_failed-Reported :
      (job : Job D) (e : Thrown)
      → Triple Fresh
          (on_failed (recorded oracle) job e)
          (λ _.
            Reported
              (ltb job.attempts_made (or_else job.attempts 1))
              (last_letter job e (oracle.safe_parse job.payload)))
          (λ _. ⊥)
  unfolding on_failed
  on_failed-Reported job e = report-Triple _ _ _ (
      Triple-bind _ _
        (Triple-caught _ (send_exhausted-Triple job e (oracle.safe_parse job.payload)))
        (after_exhausted-Triple job _))
