-- ===== src/Core/Enrichment.antt =====
-- packages/core/src/enrichment: what is read off a user agent, a referer and a destination. The
-- user-agent library and the URL parser are parameters, and each may throw. A host name that the
-- parser returns is ASCII, as URLs serialise it.
pub mod Markers
mod Tests
use posta.Shared.{
  String, Bool, true, false, ◌||◌, List, [], ◌∷◌, Option, none, some, if◌then◌else◌, str_eq, any,
  or_else, Outcome, ok, throw, stuck,
}
use posta.Shared.Text.{includes, to_lower_case}

pub data UaDeviceType : Type 0 where
  mobile tablet desktop unknown : UaDeviceType

pub record ParsedUserAgent : Type 0 where
  pub browser : Option String
  pub browser_version : Option String
  pub os : Option String
  pub device_type : UaDeviceType

-- What `new UAParser(ua).getResult()` has of the fields that the code reads.
pub record UaResult : Type 0 where
  pub browser_name : Option String
  pub browser_version : Option String
  pub os_name : Option String
  pub device_type : Option String

-- The library and the URL parser: `new URL(text).hostname`.
pub record EnrichDeps : Type 0 where
  pub parse_ua : String → Outcome UaResult
  pub url_hostname : String → Outcome String

abbrev pub all_null_result : ParsedUserAgent
all_null_result = record {
  browser = none;
  browser_version = none;
  os = none;
  device_type = unknown;
}

abbrev pub known_device : String → UaDeviceType
known_device device_type =
    if str_eq device_type "mobile"
    then mobile
    else if str_eq device_type "tablet"
    then tablet
    else unknown

abbrev pub normalise_device_type : Option String → Option String → UaDeviceType
normalise_device_type (some device_type) browser_name = known_device device_type
normalise_device_type none (some name) = desktop
normalise_device_type none none = unknown

abbrev pub from_result : Outcome UaResult → ParsedUserAgent
from_result (ok r) = record {
  browser = r.browser_name;
  browser_version = r.browser_version;
  os = r.os_name;
  device_type = normalise_device_type r.device_type r.browser_name;
}
from_result (throw e) = all_null_result
from_result stuck = all_null_result

pub parse_user_agent : EnrichDeps → Option String → ParsedUserAgent
parse_user_agent deps none = all_null_result
parse_user_agent deps (some ua) =
    if str_eq ua "" then all_null_result else from_result (deps.parse_ua ua)

abbrev pub non_empty : String → Option String
non_empty hostname = if str_eq hostname "" then none else some hostname

abbrev pub host_of : Outcome String → Option String
host_of (ok hostname) = non_empty (to_lower_case hostname)
host_of (throw e) = none
host_of stuck = none

pub dest_host : EnrichDeps → String → Option String
dest_host deps destination =
    if str_eq destination "" then none else host_of (deps.url_hostname destination)

pub data SourcePlatformValue : Type 0 where
  instagram whatsapp tiktok facebook x directo : SourcePlatformValue

abbrev pub referer_host_platforms : List (String × SourcePlatformValue)
referer_host_platforms =
    ("instagram.com", instagram)
    ∷ ("www.instagram.com", instagram)
    ∷ ("l.instagram.com", instagram)
    ∷ ("facebook.com", facebook)
    ∷ ("www.facebook.com", facebook)
    ∷ ("m.facebook.com", facebook)
    ∷ ("l.facebook.com", facebook)
    ∷ ("lm.facebook.com", facebook)
    ∷ ("twitter.com", x)
    ∷ ("www.twitter.com", x)
    ∷ ("x.com", x)
    ∷ ("www.x.com", x)
    ∷ ("t.co", x)
    ∷ ("tiktok.com", tiktok)
    ∷ ("www.tiktok.com", tiktok)
    ∷ ("vm.tiktok.com", tiktok)
    ∷ ("wa.me", whatsapp)
    ∷ ("web.whatsapp.com", whatsapp)
    ∷ ("com.whatsapp", whatsapp)
    ∷ []

abbrev pub ua_marker_platforms : List (String × SourcePlatformValue)
ua_marker_platforms =
    ("Instagram", instagram) ∷ ("FBAN", facebook) ∷ ("FBAV", facebook) ∷ ("TikTok", tiktok) ∷ []

-- The first pair of the table whose text passes the test.
abbrev pub find_platform :
    (String → Bool) → List (String × SourcePlatformValue) → Option SourcePlatformValue
find_platform p [] = none
find_platform p ((text, platform) ∷ rest) = if p text then some platform else find_platform p rest

abbrev pub platform_from_referer : Option String → Option SourcePlatformValue
platform_from_referer none = none
platform_from_referer (some host) = find_platform (λ text. str_eq host text) referer_host_platforms

abbrev pub platform_from_ua : Option String → SourcePlatformValue
platform_from_ua none = directo
platform_from_ua (some ua) =
    or_else (find_platform (λ marker. includes ua marker) ua_marker_platforms) directo

abbrev pub referer_host : EnrichDeps → Option String → Option String
referer_host deps none = none
referer_host deps (some referer) = dest_host deps referer

pub resolve_source_platform : EnrichDeps → Option String → Option String → SourcePlatformValue
resolve_source_platform deps referer ua =
    or_else (platform_from_referer (referer_host deps referer)) (platform_from_ua ua)

abbrev pub in_app_markers : List String
in_app_markers = "Instagram" ∷ "FBAN" ∷ "FBAV" ∷ "TikTok" ∷ "BytedanceWebview" ∷ "Line" ∷ []

pub is_in_app : Option String → Bool
is_in_app none = false
is_in_app (some ua) = any (λ marker. includes ua marker) in_app_markers

pub record EnrichmentResult : Type 0 where
  pub browser : Option String
  pub browser_version : Option String
  pub os : Option String
  pub device_type : UaDeviceType
  pub source_platform : SourcePlatformValue
  pub is_in_app : Bool
  pub dest_host : Option String

-- `destination === null || destination === '' ? null : destHost(destination)`
abbrev pub host_or_null : EnrichDeps → Option String → Option String
host_or_null deps none = none
host_or_null deps (some destination) =
    if str_eq destination "" then none else dest_host deps destination

-- `enrich`, on the fields of its input.
pub enrich : EnrichDeps → Option String → Option String → Option String → EnrichmentResult
enrich deps user_agent referer destination =
    let parsed = parse_user_agent deps user_agent in
    record {
      browser = parsed.browser;
      browser_version = parsed.browser_version;
      os = parsed.os;
      device_type = parsed.device_type;
      source_platform = resolve_source_platform deps referer user_agent;
      is_in_app = is_in_app user_agent;
      dest_host = host_or_null deps destination;
    }
