-- ===== src/Redirect/Handler/Answers.antt =====
-- Each request is answered exactly once, before anything is captured of it.
use mathlib.Core.List.{mem-cons_self}
use posta.Shared.{◌≡◌, refl, String, Bool, true, false, Option, none, some, inl}
use posta.Shared.Recording.{History}
use posta.Shared.Triples.{Triple, Triple-pure, Triple-bind, Triple-caught, Triple-try_catch}
use posta.Redirect.Location.{CodePoints, encode_destination_for_header}
use posta.Redirect.Handler.{
  CachedLink, RequestTarget, link, handle_root, reserved_path, reserved_handle, invalid_path,
  not_ours, redirected, passed_on, Req, send_encoded, send_link_redirect, after_redirect, checked,
  handle_link_target, start_link_target, handle_target, redirect_middleware,
}
use posta.Redirect.Handler.History.{Call, responded, Oracle, IsOpen, IsSent, IsAnswered}
use posta.Redirect.Handler.Steps.{
  deps, Never, record-Triple, log-IsOpen-Triple, answered, send_not_found-Triple, resolve-Triple,
}
use posta.Redirect.Handler.Captures.{after_redirect-Triple}

module _ (oracle : Oracle) where
  -- Whether the redirect was sent.
  abbrev Redirected : Bool → History Call → Type 0
  Redirected false h = IsOpen oracle h
  Redirected true h = (location : CodePoints) × IsSent oracle location h

  send_encoded-Triple :
      {E : History Call → Type 0} (raw : String) (destination : CodePoints) (o : Option CodePoints)
      → oracle.check_destination raw ≡ some destination
      → encode_destination_for_header destination ≡ o
      → Triple (IsOpen oracle) (send_encoded (deps oracle) o) Redirected E
  send_encoded-Triple raw destination none c e = Triple-pure false
  send_encoded-Triple raw destination (some location) c e =
      Triple-bind {Q = λ _ h. Redirected true h} _ _
        (record-Triple oracle (responded (redirected location)) λ h o. (
          location,
          record {
            once = rw o.unanswered refl;
            sent = mem-cons_self;
            ordered = (inl refl, o.ordered);
            checked = ((raw, destination, c, e), o.checked);
          },
        ))
        λ _. Triple-pure true

  continue-Triple :
      {E : History Call → Type 0} (req : Req) (slug tenant_id : String) (l : CachedLink)
      (sent : Bool)
      → Triple
          (Redirected sent)
          (after_redirect (deps oracle) req slug tenant_id l sent)
          (λ _. IsAnswered oracle)
          E
  continue-Triple req slug tenant_id l false = send_not_found-Triple oracle slug
  continue-Triple req slug tenant_id l true = record {
    at = λ h (location, s). (after_redirect-Triple oracle location req slug tenant_id l).at h s;
  }

  checked-Triple :
      {E : History Call → Type 0} (req : Req) (slug tenant_id : String) (l : CachedLink)
      (o : Option CodePoints)
      → oracle.check_destination l.destination ≡ o
      → Triple
          (IsOpen oracle)
          (checked (deps oracle) req slug tenant_id l o)
          (λ _. IsAnswered oracle)
          E
  unfolding send_link_redirect
  checked-Triple req slug tenant_id l none c =
      Triple-bind _ _
        (log-IsOpen-Triple oracle _ (record { no_reply = refl; no_enqueue = refl; checked = tt }))
        λ _.
          Triple-bind _ _
            (log-IsOpen-Triple oracle _
              (record { no_reply = refl; no_enqueue = refl; checked = tt }))
            λ _. send_not_found-Triple oracle slug
  checked-Triple req slug tenant_id l (some destination) c =
      Triple-bind _ _ (send_encoded-Triple l.destination destination _ c refl)
        λ sent. continue-Triple req slug tenant_id l sent

  handle_link_target-Triple :
      (handle slug : String) (req : Req)
      → Triple
          (IsOpen oracle)
          (handle_link_target (deps oracle) handle slug req)
          (λ _. IsAnswered oracle)
          (Never oracle)
  unfolding handle_link_target
  handle_link_target-Triple handle slug req =
      Triple-bind _ _ (resolve-Triple oracle handle slug) (elim [
        | none ↦ Triple-pure tt
        | some (tenant_id, l) ↦ checked-Triple req slug tenant_id l _ refl
      ])

  start_link_target-Triple :
      (handle slug : String) (req : Req)
      → Triple
          (IsOpen oracle)
          (start_link_target (deps oracle) handle slug req)
          (λ _. IsAnswered oracle)
          (Never oracle)
  unfolding start_link_target
  start_link_target-Triple handle slug req =
      Triple-bind _ _
        (Triple-caught {F = Never oracle} _ (
          Triple-try_catch _ _ (handle_link_target-Triple handle slug req)
            (λ e. record { at = λ h n. elim n [ ] })))
        (elim [ none ↦ Triple-pure tt | some e ↦ record { at = λ h n. elim n [ ] } ])

  handle_target-Triple :
      (target : RequestTarget) (req : Req)
      → Triple
          (IsOpen oracle)
          (handle_target (deps oracle) target req)
          (λ _. IsAnswered oracle)
          (Never oracle)
  unfolding handle_target
  handle_target-Triple not_ours req = answered oracle passed_on tt
  handle_target-Triple (handle_root handle) req =
      Triple-bind _ _
        (log-IsOpen-Triple oracle _ (record { no_reply = refl; no_enqueue = refl; checked = tt }))
        λ _.
          Triple-bind _ _
            (log-IsOpen-Triple oracle _
              (record { no_reply = refl; no_enqueue = refl; checked = tt }))
            λ _. send_not_found-Triple oracle ""
  handle_target-Triple (link handle slug) req = start_link_target-Triple handle slug req
  handle_target-Triple reserved_path req = send_not_found-Triple oracle _
  handle_target-Triple invalid_path req = send_not_found-Triple oracle _
  handle_target-Triple (reserved_handle handle) req = send_not_found-Triple oracle ""

  -- Where the response object, the logger and the counters do not throw: whatever the request is, and
  -- whenever the lookups of the tenant, the link, the network and the salt, the hash or the queue fail, the
  -- middleware ends without throwing and has answered the request exactly once. A redirect goes only to the
  -- header value of a destination that passed the check, and each event was enqueued after the redirect was
  -- sent.
  pub redirect_middleware-IsAnswered :
      (req : Req)
      → Triple
          (IsOpen oracle)
          (redirect_middleware (deps oracle) req)
          (λ _. IsAnswered oracle)
          (Never oracle)
  unfolding redirect_middleware
  redirect_middleware-IsAnswered req = handle_target-Triple _ req
