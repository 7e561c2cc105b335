-- ===== src/Redirect/Handler.antt =====
-- apps/api/src/redirect/middleware.ts: a request is resolved, answered, and then captured. What the
-- middleware is built from is a parameter, and may throw. One reply stands for the calls on the response
-- object that make it up. A promise whose answer nobody awaits runs where it is started, and what it
-- throws there is dropped. A log call keeps what identifies the request.
pub mod History
pub mod Steps
pub mod Captures
pub mod Answers
mod Tests
use posta.Shared.{
  ℕ, String, Bool, true, false, List, [], ◌∷◌, Option, none, some, or_else, if◌then◌else◌, str_eq,
  Act, Outcome, ok, throw, pure, lift, caught, try_catch, ◌>>=◌, ◌>>◌,
}
use posta.Shared.Text.{without_slash}
use posta.Shared.Thrown.{Thrown, error_message}
use posta.Contracts.Capture.{CaptureEvent}
use posta.Redirect.Capture.{
  Headers, HeaderValue, absent, one, many, HeaderSignals, CapturePayloadInput, read_client_ip,
  read_signals, read_header, compute_visitor_hash, build_capture_payload,
}
use posta.Redirect.Location.{CodePoints, encode_destination_for_header}

pub record CachedLink : Type 0 where
  pub link_id : String
  pub tenant_id : String
  pub destination : String

pub data RequestTarget : Type 0 where
  link : (handle slug : String) → RequestTarget
  handle_root : (handle : String) → RequestTarget
  reserved_path : RequestTarget
  reserved_handle : (handle : String) → RequestTarget
  invalid_path : RequestTarget
  not_ours : RequestTarget

-- What is done with the response: the 404 page, a 307 to a location, or nothing (`next()`).
pub data Reply : Type 0 where
  not_found : (page : String) → Reply
  redirected : (location : CodePoints) → Reply
  passed_on : Reply

pub data HandlerLog : Type 0 where
  handle_root_hit : (handle : String) → HandlerLog
  resolution_failed : (handle slug : String) → HandlerLog
  destination_rejected : (link_id : String) → HandlerLog
  capture_failed : (tenant_id slug : String) → HandlerLog
  enqueue_failed : (event_id tenant_id slug message : String) → HandlerLog
  rejected_unexpectedly : HandlerLog

pub data HandlerCounter : Type 0 where
  handle_root_hits open_redirect_rejected : HandlerCounter

pub record Network : Type 0 where
  pub asn : Option ℕ
  pub country : Option String

pub record Req : Type 0 where
  pub method : Option String
  pub path : String
  pub headers : Headers

pub record HandlerDeps (W : Type 0) : Type 0 where
  pub parse_request_target : (host path : String) → RequestTarget
  pub resolve_tenant : String → Act W (Option String)
  pub resolve_link : (tenant_id slug : String) → Act W (Option CachedLink)
  -- `zDestination.safeParse(…)`: the parsed value, `none` where it fails.
  pub check_destination : String → Option CodePoints
  pub lookup_network : String → Option String → Act W Network
  pub get_daily_salt : Act W String
  pub sha256 : String → String
  pub new_id : Act W String
  pub now_iso : Act W String
  pub enqueue_capture : CaptureEvent → Act W (Unit {0})
  pub redact : String → String
  pub log_error : HandlerLog → Act W (Unit {0})
  pub increase : HandlerCounter → Act W (Unit {0})
  pub render_not_found : String → String
  pub respond : Reply → Act W (Unit {0})

module _ {W : Type 0} (deps : HandlerDeps W) where
  pub send_not_found : String → Act W (Unit {0})
  send_not_found slug = deps.respond (not_found (deps.render_not_found slug))

  abbrev pub describe_requested_path : String → String
  describe_requested_path path = without_slash path

  abbrev pub send_encoded : Option CodePoints → Act W Bool
  send_encoded none = pure false
  send_encoded (some location) = do deps.respond (redirected location); pure true

  pub send_link_redirect : CodePoints → Act W Bool
  send_link_redirect destination = send_encoded (encode_destination_for_header destination)

  -- The link of a request with its tenant; `none` where the request has been answered.
  abbrev pub found_link : String → String → Option CachedLink → Act W (Option (String × CachedLink))
  found_link slug tenant_id none = do send_not_found slug; pure none
  found_link slug tenant_id (some l) = pure (some (tenant_id, l))

  abbrev pub found_tenant : String → Option String → Act W (Option (String × CachedLink))
  found_tenant slug none = do send_not_found slug; pure none
  found_tenant slug (some tenant_id) = do
    l ← deps.resolve_link tenant_id slug
    found_link slug tenant_id l

  -- The first `try` block, with its `catch`.
  pub resolve : String → String → Act W (Option (String × CachedLink))
  resolve handle slug =
      try_catch (do tenant_id ← deps.resolve_tenant handle; found_tenant slug tenant_id)
        (λ e. do deps.log_error (resolution_failed handle slug); send_not_found slug; pure none)

  abbrev pub only_one : HeaderValue → Option String
  only_one (one value) = some value
  only_one absent = none
  only_one (many values) = none

  abbrev pub optional_hash : Option String → Option String → String → Act W (Option String)
  optional_hash none user_agent salt = pure none
  optional_hash (some ip) user_agent salt = do
    hash ← lift (compute_visitor_hash deps.sha256 ip user_agent salt)
    pure (some hash)

  -- `void enqueueCapture(payload).catch(…)`
  abbrev pub log_failure : CaptureEvent → Option Thrown → Act W (Unit {0})
  log_failure payload none = pure tt
  log_failure payload (some e) = deps.log_error (
      enqueue_failed payload.event_id payload.tenant_id payload.slug
        (deps.redact (error_message e)))

  abbrev pub enqueue_and_log : CaptureEvent → Act W (Unit {0})
  enqueue_and_log payload = do
    failure ← caught (deps.enqueue_capture payload)
    log_failure payload failure

  pub start_enqueue : CaptureEvent → Act W (Unit {0})
  start_enqueue payload = do dropped ← caught (enqueue_and_log payload); pure tt

  -- The second `try` block.
  pub capture : Req → String → String → CachedLink → Act W (Unit {0})
  capture req slug tenant_id l = do
    let ip = read_client_ip req.headers
    let signals = read_signals req.method req.headers
    network ← deps.lookup_network (or_else ip "") (only_one (req.headers "cf-ipcountry"))
    salt ← deps.get_daily_salt
    visitor_hash ← optional_hash ip signals.user_agent salt
    id ← deps.new_id
    now ← deps.now_iso
    let payload = build_capture_payload id now (record {
      tenant_id = tenant_id;
      link_id = l.link_id;
      slug = slug;
      signals = signals;
      visitor_hash = visitor_hash;
      asn = network.asn;
      country = network.country;
    })
    start_enqueue payload

  abbrev pub after_redirect : Req → String → String → CachedLink → Bool → Act W (Unit {0})
  after_redirect req slug tenant_id l false = send_not_found slug
  after_redirect req slug tenant_id l true =
      try_catch (capture req slug tenant_id l) (λ e. deps.log_error (capture_failed tenant_id slug))

  abbrev pub checked : Req → String → String → CachedLink → Option CodePoints → Act W (Unit {0})
  checked req slug tenant_id l none = do
    deps.log_error (destination_rejected l.link_id)
    deps.increase open_redirect_rejected
    send_not_found slug
  checked req slug tenant_id l (some destination) = do
    sent ← send_link_redirect destination
    after_redirect req slug tenant_id l sent

  abbrev pub answer_found : Req → String → Option (String × CachedLink) → Act W (Unit {0})
  answer_found req slug none = pure tt
  answer_found req slug (some (tenant_id, l)) =
      checked req slug tenant_id l (deps.check_destination l.destination)

  pub handle_link_target : String → String → Req → Act W (Unit {0})
  handle_link_target handle slug req = do found ← resolve handle slug; answer_found req slug found

  -- `void handleLinkTarget(…).catch(…)`
  pub start_link_target : String → String → Req → Act W (Unit {0})
  start_link_target handle slug req = do
    dropped ←
        caught (
          try_catch (handle_link_target handle slug req)
            (λ e. deps.log_error rejected_unexpectedly))
    pure tt

  pub handle_target : RequestTarget → Req → Act W (Unit {0})
  handle_target not_ours req = deps.respond passed_on
  handle_target (handle_root handle) req = do
    deps.log_error (handle_root_hit handle)
    deps.increase handle_root_hits
    send_not_found ""
  handle_target (link handle slug) req = start_link_target handle slug req
  handle_target reserved_path req = send_not_found (describe_requested_path req.path)
  handle_target invalid_path req = send_not_found (describe_requested_path req.path)
  handle_target (reserved_handle handle) req = send_not_found ""

  pub redirect_middleware : Req → Act W (Unit {0})
  redirect_middleware req =
      handle_target
        (deps.parse_request_target (or_else (read_header req.headers "host") "") req.path) req
