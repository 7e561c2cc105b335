-- ===== src/Redirect/Handler/Captures.antt =====
-- What is captured of a request, and what fails of it, leaves the answer alone.
use posta.Shared.{◌≡◌, refl, String, true, Option, none, some, Outcome, ok, throw, stuck}
use posta.Shared.Thrown.{Thrown}
use posta.Shared.Recording.{History}
use posta.Shared.Triples.{
  Triple, After, Triple-pure, Triple-lift, Triple-bind, Triple-caught, Triple-try_catch,
  Triple-weaken,
}
use posta.Contracts.Capture.{CaptureEvent}
use posta.Redirect.Location.{CodePoints}
use posta.Redirect.Handler.{
  CachedLink, Req, optional_hash, log_failure, enqueue_and_log, start_enqueue, capture,
  after_redirect,
}
use posta.Redirect.Handler.History.{
  Call, asked_network, asked_salt, asked_id, asked_time, enqueued, Oracle, IsSent, IsAnswered,
}
use posta.Redirect.Capture.Hash.{compute_visitor_hash-ends}
use posta.Redirect.Handler.Steps.{deps, IsSent-Triple, log-IsSent-Triple, IsSent-IsAnswered}

module _ (oracle : Oracle) where
  hash_kept :
      (location : CodePoints) (r : Outcome String)
      → (r ≡ stuck → ⊥)
      → (h : History Call) → IsSent oracle location h
      → After (λ _. IsSent oracle location) (IsSent oracle location) r h
  hash_kept location (ok hash) k h s = s
  hash_kept location (throw e) k h s = s
  hash_kept location stuck k h s = k refl

  optional_hash-Triple :
      (location : CodePoints) (ip user_agent : Option String) (salt : String)
      → Triple
          (IsSent oracle location)
          (optional_hash (deps oracle) ip user_agent salt)
          (λ _. IsSent oracle location)
          (IsSent oracle location)
  optional_hash-Triple location none user_agent salt = Triple-pure none
  optional_hash-Triple location (some ip) user_agent salt =
      Triple-bind _ _
        (Triple-lift _
          (hash_kept location _ (compute_visitor_hash-ends oracle.sha256 ip user_agent salt)))
        λ hash. Triple-pure (some hash)

  log_failure-Triple :
      {E : History Call → Type 0} (location : CodePoints) (payload : CaptureEvent)
      (failure : Option Thrown)
      → Triple
          (IsSent oracle location)
          (log_failure (deps oracle) payload failure)
          (λ _. IsSent oracle location)
          E
  log_failure-Triple location payload none = Triple-pure tt
  log_failure-Triple location payload (some e) = log-IsSent-Triple oracle location _ refl tt

  enqueue_and_log-Triple :
      {E : History Call → Type 0} (location : CodePoints) (payload : CaptureEvent)
      → Triple
          (IsSent oracle location)
          (enqueue_and_log (deps oracle) payload)
          (λ _. IsSent oracle location)
          E
  enqueue_and_log-Triple location payload =
      Triple-bind _ _
        (Triple-caught _ (IsSent-Triple oracle location (enqueued payload) _ (λ _. refl) (λ _. tt)))
        (elim [
          | none ↦ log_failure-Triple location payload none
          | some e ↦ log_failure-Triple location payload (some e)
        ])

  start_enqueue-Triple :
      {E : History Call → Type 0} (location : CodePoints) (payload : CaptureEvent)
      → Triple
          (IsSent oracle location)
          (start_enqueue (deps oracle) payload)
          (λ _. IsSent oracle location)
          E
  unfolding start_enqueue
  start_enqueue-Triple location payload =
      Triple-bind _ _
        (Triple-caught {F = IsSent oracle location} _ (enqueue_and_log-Triple location payload))
        (elim [ none ↦ Triple-pure tt | some e ↦ Triple-pure tt ])

  capture-Triple :
      (location : CodePoints) (req : Req) (slug tenant_id : String) (l : CachedLink)
      → Triple
          (IsSent oracle location)
          (capture (deps oracle) req slug tenant_id l)
          (λ _. IsSent oracle location)
          (IsSent oracle location)
  unfolding capture
  capture-Triple location req slug tenant_id l =
      Triple-bind _ _ (IsSent-Triple oracle location asked_network _ (λ _. refl) (λ _. tt))
        λ network.
          Triple-bind _ _ (IsSent-Triple oracle location asked_salt _ (λ _. refl) (λ _. tt)) λ salt.
            Triple-bind _ _ (optional_hash-Triple location _ _ salt) λ visitor_hash.
              Triple-bind _ _ (IsSent-Triple oracle location asked_id _ (λ _. refl) (λ _. tt)) λ id.
                Triple-bind _ _ (IsSent-Triple oracle location asked_time _ (λ _. refl) (λ _. tt))
                  λ now. start_enqueue-Triple location _

  pub after_redirect-Triple :
      {E : History Call → Type 0} (location : CodePoints) (req : Req) (slug tenant_id : String)
      (l : CachedLink)
      → Triple
          (IsSent oracle location)
          (after_redirect (deps oracle) req slug tenant_id l true)
          (λ _. IsAnswered oracle)
          E
  after_redirect-Triple location req slug tenant_id l =
      Triple-try_catch _ _
        (Triple-weaken _ (capture-Triple location req slug tenant_id l) (λ h s. s)
          (λ _ h s. IsSent-IsAnswered oracle location h s) (λ h s. s))
        (λ e.
          Triple-weaken _ (log-IsSent-Triple oracle location _ refl tt) (λ h s. s)
            (λ _ h s. IsSent-IsAnswered oracle location h s) (λ h s. s))
