-- ===== src/Redirect/Handler/History.antt =====
-- The world of a request: the calls of the middleware's collaborators, answered by an oracle. The response
-- object, the logger and the counters do not throw; all else may, whenever the oracle says so.
use mathlib.Core.List.{Mem}
use posta.Shared.{
  ℕ, ◌≡◌, String, Bool, true, false, [], ◌∷◌, Option, none, some, select, length, All, ◌⊎◌, Act, ok,
}
use posta.Shared.Thrown.{Thrown}
use posta.Shared.Recording.{Entry, History, call}
use posta.Contracts.Capture.{CaptureEvent}
use posta.Redirect.Location.{CodePoints, encode_destination_for_header}
use posta.Redirect.Handler.{
  CachedLink, RequestTarget, Reply, redirected, not_found, passed_on, HandlerLog, HandlerCounter,
  Network, HandlerDeps,
}

pub data Call : Type 0 where
  asked_tenant : (handle : String) → Call
  asked_link : (tenant_id slug : String) → Call
  asked_network asked_salt asked_id asked_time : Call
  enqueued : CaptureEvent → Call
  logged : HandlerLog → Call
  counted : HandlerCounter → Call
  responded : Reply → Call

pub record Oracle : Type 0 where
  pub fails : History Call → Call → Option Thrown
  pub tenant : History Call → Option String
  pub link : History Call → Option CachedLink
  pub network : History Call → Network
  pub text : History Call → String
  pub parse_request_target : (host path : String) → RequestTarget
  pub check_destination : String → Option CodePoints
  pub sha256 : String → String
  pub redact : String → String
  pub render_not_found : String → String

abbrev pub record_call : Call → Act (History Call) (Unit {0})
record_call c h = (ok tt, (c, none) ∷ h)

abbrev pub recorded : Oracle → HandlerDeps (History Call)
recorded oracle = record {
  parse_request_target = oracle.parse_request_target;
  resolve_tenant = λ handle. call oracle.fails (asked_tenant handle) oracle.tenant;
  resolve_link = λ tenant_id slug. call oracle.fails (asked_link tenant_id slug) oracle.link;
  check_destination = oracle.check_destination;
  lookup_network = λ ip country. call oracle.fails asked_network oracle.network;
  get_daily_salt = call oracle.fails asked_salt oracle.text;
  sha256 = oracle.sha256;
  new_id = call oracle.fails asked_id oracle.text;
  now_iso = call oracle.fails asked_time oracle.text;
  enqueue_capture = λ event. call oracle.fails (enqueued event) (λ h. tt);
  redact = oracle.redact;
  log_error = λ l. record_call (logged l);
  increase = λ c. record_call (counted c);
  render_not_found = oracle.render_not_found;
  respond = λ r. record_call (responded r);
}

abbrev pub is_reply : Entry Call → Bool
is_reply (responded r, answer) = true
is_reply (asked_tenant handle, answer) = false
is_reply (asked_link tenant_id slug, answer) = false
is_reply (asked_network, answer) = false
is_reply (asked_salt, answer) = false
is_reply (asked_id, answer) = false
is_reply (asked_time, answer) = false
is_reply (enqueued event, answer) = false
is_reply (logged l, answer) = false
is_reply (counted c, answer) = false

abbrev pub is_enqueue : Entry Call → Bool
is_enqueue (enqueued event, answer) = true
is_enqueue (responded r, answer) = false
is_enqueue (asked_tenant handle, answer) = false
is_enqueue (asked_link tenant_id slug, answer) = false
is_enqueue (asked_network, answer) = false
is_enqueue (asked_salt, answer) = false
is_enqueue (asked_id, answer) = false
is_enqueue (asked_time, answer) = false
is_enqueue (logged l, answer) = false
is_enqueue (counted c, answer) = false

abbrev pub replies : History Call → ℕ
replies h = length (select is_reply h)

-- A redirect goes to the header value of a destination that passed the check.
abbrev pub IsCheckedReply : Oracle → Reply → Type 0
IsCheckedReply oracle (not_found page) = Unit {0}
IsCheckedReply oracle passed_on = Unit {0}
IsCheckedReply oracle (redirected location) =
    (raw : String) × (destination : CodePoints) × (oracle.check_destination raw ≡ some destination)
    × (encode_destination_for_header destination ≡ some location)

abbrev pub IsChecked : Oracle → Entry Call → Type 0
IsChecked oracle (responded r, answer) = IsCheckedReply oracle r
IsChecked oracle (asked_tenant handle, answer) = Unit {0}
IsChecked oracle (asked_link tenant_id slug, answer) = Unit {0}
IsChecked oracle (asked_network, answer) = Unit {0}
IsChecked oracle (asked_salt, answer) = Unit {0}
IsChecked oracle (asked_id, answer) = Unit {0}
IsChecked oracle (asked_time, answer) = Unit {0}
IsChecked oracle (enqueued event, answer) = Unit {0}
IsChecked oracle (logged l, answer) = Unit {0}
IsChecked oracle (counted c, answer) = Unit {0}

-- A redirect was sent before each event was enqueued.
abbrev pub IsOrdered : History Call → Type 0
IsOrdered [] = Unit {0}
IsOrdered (entry ∷ earlier) =
    ((is_enqueue entry ≡ false)
      ⊎ ((location : CodePoints) × Mem (responded (redirected location), none) earlier))
    × IsOrdered earlier

-- Nothing was answered yet.
pub record IsOpen (oracle : Oracle) (h : History Call) : Type 0 where
  pub unanswered : replies h ≡ 0
  pub ordered : IsOrdered h
  pub checked : All (IsChecked oracle) h

-- Exactly one redirect, to that location.
pub record IsSent (oracle : Oracle) (location : CodePoints) (h : History Call) : Type 0 where
  pub once : replies h ≡ 1
  pub sent : Mem (responded (redirected location), none) h
  pub ordered : IsOrdered h
  pub checked : All (IsChecked oracle) h

-- Exactly one reply; a redirect only to a checked destination, and an event only after
-- a redirect.
pub record IsAnswered (oracle : Oracle) (h : History Call) : Type 0 where
  pub once : replies h ≡ 1
  pub ordered : IsOrdered h
  pub checked : All (IsChecked oracle) h
