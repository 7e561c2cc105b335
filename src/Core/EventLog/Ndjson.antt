-- ===== src/Core/EventLog/Ndjson.antt =====
-- packages/core/src/r2/ndjson.ts: a batch as lines of JSON, and the log read back. The storage
-- client and `JSON.parse` are parameters. A generator is modelled by what its consumer does with
-- each value, so `for await (x of g) body` is `g` with the body as an argument. The release of the
-- stream in `finally` is left out.
pub mod Lines
pub mod Streaming
pub mod Stored
pub mod Samples
mod Tests
use Prim.Native.Char.{Char, code}
use Prim.Native.String
use posta.Shared.Loops.{for_each}
use posta.Shared.{
  ℕ, zero, suc, ◌+◌, String, Bool, true, false, ◌&&◌, ◌||◌, List, [], ◌∷◌, ◌++◌, map, Option, none,
  some, if◌then◌else◌, str_eq, ◌==◌, Act, Outcome, ok, throw, pure, raise, no_fuel, lift, ◌>>=◌,
  ◌>>◌,
}
use posta.Shared.Text.{concat, show}
use posta.Shared.Thrown.{Thrown, new_error}
use posta.Contracts.Capture.{CaptureEvent}
use posta.Core.Enrichment.{
  EnrichmentResult, UaDeviceType, mobile, tablet, desktop, unknown, SourcePlatformValue, instagram,
  whatsapp, tiktok, facebook, x, directo,
}
use posta.Core.EventLog.Json.{JsonValue, string, number, boolean, null, text_or_null, stringify}

pub record LoggedEvent : Type 0 where
  pub event : CaptureEvent
  pub enrichment : EnrichmentResult

abbrev pub number_or_null : Option ℕ → JsonValue
number_or_null none = null
number_or_null (some n) = number n

abbrev pub device_value : UaDeviceType → JsonValue
device_value mobile = string "mobile"
device_value tablet = string "tablet"
device_value desktop = string "desktop"
device_value unknown = null

abbrev pub platform_text : SourcePlatformValue → String
platform_text instagram = "instagram"
platform_text whatsapp = "whatsapp"
platform_text tiktok = "tiktok"
platform_text facebook = "facebook"
platform_text x = "x"
platform_text directo = "directo"

-- The fields of a line, in their order.
pub to_log_line : LoggedEvent → List (String × JsonValue)
to_log_line logged =
    let e = logged.event in
    let r = logged.enrichment in
    ("event_id", string e.event_id)
    ∷ ("occurred_at", string e.occurred_at)
    ∷ ("tenant_id", string e.tenant_id)
    ∷ ("link_id", string e.link_id)
    ∷ ("slug", string e.slug)
    ∷ ("visitor_hash", text_or_null e.visitor_hash)
    ∷ ("http_method", text_or_null e.http_method)
    ∷ ("user_agent", text_or_null e.user_agent)
    ∷ ("referer", text_or_null e.referer)
    ∷ ("accept", text_or_null e.accept)
    ∷ ("accept_language", text_or_null e.accept_language)
    ∷ ("sec_fetch_site", text_or_null e.sec_fetch_site)
    ∷ ("sec_fetch_mode", text_or_null e.sec_fetch_mode)
    ∷ ("sec_fetch_dest", text_or_null e.sec_fetch_dest)
    ∷ ("sec_fetch_user", text_or_null e.sec_fetch_user)
    ∷ ("sec_purpose", text_or_null e.sec_purpose)
    ∷ ("sec_ch_ua", text_or_null e.sec_ch_ua)
    ∷ ("sec_ch_ua_mobile", text_or_null e.sec_ch_ua_mobile)
    ∷ ("sec_ch_ua_platform", text_or_null e.sec_ch_ua_platform)
    ∷ ("purpose", text_or_null e.purpose)
    ∷ ("x_purpose", text_or_null e.x_purpose)
    ∷ ("x_moz", text_or_null e.x_moz)
    ∷ ("country", text_or_null e.country)
    ∷ ("asn", number_or_null e.asn)
    ∷ ("browser", text_or_null r.browser)
    ∷ ("browser_version", text_or_null r.browser_version)
    ∷ ("os", text_or_null r.os)
    ∷ ("device_type", device_value r.device_type)
    ∷ ("source_platform", string (platform_text r.source_platform))
    ∷ ("is_in_app", boolean r.is_in_app)
    ∷ ("dest_host", text_or_null r.dest_host)
    ∷ []

-- `JSON.stringify` does not throw on such a line.
pub serialize_event : LoggedEvent → String
serialize_event event = stringify (to_log_line event)

pub serialize_batch : List LoggedEvent → String
serialize_batch events = concat (map (λ event. String.◌++◌ (serialize_event event) "\n") events)

-- The lines of a text, as `readline` ends them: at a line feed, at a carriage return, at both, or at one of the two
-- separators of Unicode.
abbrev pub add_char : Char → List String → List String
add_char c [] = String.◌∷◌ c "" ∷ []
add_char c (line ∷ lines) = String.◌∷◌ c line ∷ lines

abbrev pub is_lf : Char → Bool
is_lf c = code c == 10

abbrev pub is_cr : Char → Bool
is_cr c = code c == 13

abbrev pub is_separator : Char → Bool
is_separator c = code c == 8232 || code c == 8233

abbrev pub split_lines : Bool → String → List String
split_lines after_cr String.[] = []
split_lines after_cr (String.◌∷◌ c s) =
    let rest = split_lines (is_cr c) s in
    if is_lf c && after_cr
    then rest
    else if is_lf c || is_cr c || is_separator c
    then "" ∷ rest
    else add_char c rest

-- What `JSON.parse` answers: an object, which is read as an event, an array, or another type.
pub data Parsed : Type 0 where
  object : LoggedEvent → Parsed
  array : Parsed
  other_type : String → Parsed

-- One page of `ListObjectsV2`.
pub record ListPage : Type 0 where
  pub contents : List (Option String)
  pub is_truncated : Bool
  pub next_continuation_token : Option String

-- The storage client, and `JSON.parse`. `get_object` is `none` where the body is no stream.
pub record LogDeps (W : Type 0) : Type 0 where
  pub list_page : String → Option String → Act W ListPage
  pub get_object : String → Act W (Option String)
  pub json_parse : String → Outcome Parsed

abbrev line_error : ℕ → String → String → Thrown
line_error line_number key what =
    new_error
      (concat ("streamEventLog: line " ∷ show line_number ∷ " of key \"" ∷ key ∷ "\" " ∷ what ∷ []))

abbrev pub as_event : Outcome Parsed → String → ℕ → Outcome LoggedEvent
as_event (ok (object event)) key line_number = ok event
as_event (ok array) key line_number =
    throw (line_error line_number key "parsed to a JSON array, not an object")
as_event (ok (other_type name)) key line_number =
    throw
      (line_error line_number key (concat ("parsed to a JSON " ∷ name ∷ ", not an object" ∷ [])))
as_event (throw cause) key line_number = throw (line_error line_number key "is not valid JSON")
as_event Outcome.stuck key line_number = Outcome.stuck

-- `page.Contents ?? []`, where `object.Key` is a text that is not empty.
abbrev pub keys_of : List (Option String) → List String
keys_of [] = []
keys_of (none ∷ rest) = keys_of rest
keys_of (some key ∷ rest) = if str_eq key "" then keys_of rest else key ∷ keys_of rest

abbrev pub truthy : Option String → Option String
truthy none = none
truthy (some s) = if str_eq s "" then none else some s

module _ {W : Type 0} (deps : LogDeps W) where
  abbrev pub parse_logged_event_line : String → String → ℕ → Outcome LoggedEvent
  parse_logged_event_line line key line_number = as_event (deps.json_parse line) key line_number

  -- What follows a page. `rec` is the next round of the loop.
  abbrev pub next_page :
      (Option String → Act W (Unit {0})) → String → Bool → Option String → Act W (Unit {0})
  next_page rec prefix false token = pure tt
  next_page rec prefix true none = raise (
      new_error (
        concat (
          "streamEventLog: ListObjectsV2 for prefix \"" ∷ prefix
          ∷ "\" reported IsTruncated=true with no NextContinuationToken" ∷ [])))
  next_page rec prefix true (some token) = rec (some token)

  -- One round of fuel for each page.
  pub list_object_keys : (String → Act W (Unit {0})) → ℕ → String → Option String → Act W (Unit {0})
  list_object_keys body zero prefix token = no_fuel
  list_object_keys body (suc fuel) prefix token = do
    page ← deps.list_page prefix token
    for_each body (keys_of page.contents)
    next_page (list_object_keys body fuel prefix) prefix page.is_truncated
        (truthy page.next_continuation_token)

  -- The loop over the lines, from the number of the last one.
  pub stream_lines : (LoggedEvent → Act W (Unit {0})) → String → ℕ → List String → Act W (Unit {0})
  stream_lines body key line_number [] = pure tt
  stream_lines body key line_number (line ∷ lines) =
      let rest = stream_lines body key (line_number + 1) lines in
      if str_eq line ""
      then rest
      else do event ← lift (parse_logged_event_line line key (line_number + 1)); body event; rest

  pub stream_body : (LoggedEvent → Act W (Unit {0})) → String → Option String → Act W (Unit {0})
  stream_body body key none = raise (
      new_error (
        concat (
          "streamEventLog: GetObjectCommand for key \"" ∷ key ∷ "\" returned no readable body"
          ∷ [])))
  stream_body body key (some content) = stream_lines body key 0 (split_lines false content)

  pub stream_records_from_object : (LoggedEvent → Act W (Unit {0})) → String → Act W (Unit {0})
  stream_records_from_object body key = do
    content ← deps.get_object key
    stream_body body key content

  pub stream_event_log : (LoggedEvent → Act W (Unit {0})) → ℕ → List String → Act W (Unit {0})
  stream_event_log body pages prefixes =
      for_each (λ prefix. list_object_keys (stream_records_from_object body) pages prefix none)
        prefixes
