-- ===== src/Redirect/Capture.antt =====
-- apps/api/src/redirect/capture.ts: what is read off a request for its capture event. The hash is a
-- parameter, as is the time and the id of an event.
pub mod Hash
use Prim.Native.Char.{Char, code, nul}
use Prim.Native.String
use posta.Shared.{
  ℕ, String, Bool, true, false, not, ◌&&◌, ◌||◌, List, [], ◌∷◌, Option, none, some, or_else,
  if◌then◌else◌, leb, ◌==◌, str_eq, any, Outcome, ok, throw,
}
use posta.Shared.Text.{includes, concat, slice_chars, trim}
use posta.Shared.Thrown.{new_error}
use posta.Contracts.Capture.{CaptureEvent}

-- A header of a request: absent, given once, or given as a list.
pub data HeaderValue : Type 0 where
  absent : HeaderValue
  one : String → HeaderValue
  many : List String → HeaderValue

abbrev pub Headers : Type 0
Headers = String → HeaderValue

pub record HeaderSignals : Type 0 where
  pub http_method : Option String
  pub user_agent : Option String
  pub referer : Option String
  pub accept : Option String
  pub accept_language : Option String
  pub sec_fetch_site : Option String
  pub sec_fetch_mode : Option String
  pub sec_fetch_dest : Option String
  pub sec_fetch_user : Option String
  pub sec_ch_ua : Option String
  pub sec_ch_ua_mobile : Option String
  pub sec_ch_ua_platform : Option String
  pub sec_purpose : Option String
  pub purpose : Option String
  pub x_purpose : Option String
  pub x_moz : Option String

abbrev pub first_of : HeaderValue → Option String
first_of absent = none
first_of (one value) = some value
first_of (many []) = none
first_of (many (value ∷ rest)) = some value

pub read_header : Headers → String → Option String
read_header headers name = first_of (headers name)

pub read_signals : Option String → Headers → HeaderSignals
read_signals method headers = record {
  http_method = method;
  user_agent = read_header headers "user-agent";
  referer = read_header headers "referer";
  accept = read_header headers "accept";
  accept_language = read_header headers "accept-language";
  sec_fetch_site = read_header headers "sec-fetch-site";
  sec_fetch_mode = read_header headers "sec-fetch-mode";
  sec_fetch_dest = read_header headers "sec-fetch-dest";
  sec_fetch_user = read_header headers "sec-fetch-user";
  sec_ch_ua = read_header headers "sec-ch-ua";
  sec_ch_ua_mobile = read_header headers "sec-ch-ua-mobile";
  sec_ch_ua_platform = read_header headers "sec-ch-ua-platform";
  sec_purpose = read_header headers "sec-purpose";
  purpose = read_header headers "purpose";
  x_purpose = read_header headers "x-purpose";
  x_moz = read_header headers "x-moz";
}

-- `value.split(',')[0]`
abbrev pub up_to_comma : String → String
up_to_comma String.[] = ""
up_to_comma (String.◌∷◌ c s) =
    let rest = up_to_comma s in if code c == 44 then "" else String.◌∷◌ c rest

-- A text that is not empty.
abbrev pub filled : Option String → Option String
filled none = none
filled (some value) = if str_eq value "" then none else some value

abbrev pub leftmost_forwarded_for : String → Option String
leftmost_forwarded_for value = filled (some (trim (up_to_comma value)))

abbrev pub forwarded_ip : Option String → Option String
forwarded_ip none = none
forwarded_ip (some value) = leftmost_forwarded_for value

abbrev pub or_forwarded : Option String → Option String → Option String
or_forwarded (some ip) forwarded_for = some ip
or_forwarded none forwarded_for = forwarded_ip forwarded_for

pub read_client_ip : Headers → Option String
read_client_ip headers =
    or_forwarded (filled (read_header headers "cf-connecting-ip"))
      (read_header headers "x-forwarded-for")

abbrev pub visitor_hash_length : ℕ
visitor_hash_length = 32

-- The text of one character, U+0000.
abbrev pub visitor_hash_delimiter : String
visitor_hash_delimiter = String.◌∷◌ nul String.[]

abbrev pub delimiter_error : String → Outcome String
delimiter_error field =
    throw (
      new_error
        (concat ("computeVisitorHash: " ∷ field ∷ " contains the hash delimiter byte" ∷ [])))

-- `sha256` gives the hexadecimal digest of a text.
pub compute_visitor_hash :
    (sha256 : String → String) → String → Option String → String → Outcome String
compute_visitor_hash sha256 ip user_agent salt =
    let agent = or_else user_agent "" in
    if includes ip visitor_hash_delimiter
    then delimiter_error "ip"
    else if includes agent visitor_hash_delimiter
    then delimiter_error "userAgent"
    else if includes salt visitor_hash_delimiter
    then delimiter_error "salt"
    else ok (
        slice_chars visitor_hash_length (
          sha256
            (concat (ip ∷ visitor_hash_delimiter ∷ agent ∷ visitor_hash_delimiter ∷ salt ∷ []))))

pub record CapturePayloadInput : Type 0 where
  pub tenant_id : String
  pub link_id : String
  pub slug : String
  pub signals : HeaderSignals
  pub visitor_hash : Option String
  pub asn : Option ℕ
  pub country : Option String

pub build_capture_payload : (new_id now : String) → CapturePayloadInput → CaptureEvent
build_capture_payload new_id now input =
    let s = input.signals in
    record {
      event_id = new_id;
      occurred_at = now;
      tenant_id = input.tenant_id;
      link_id = input.link_id;
      slug = input.slug;
      http_method = s.http_method;
      user_agent = s.user_agent;
      referer = s.referer;
      accept = s.accept;
      accept_language = s.accept_language;
      sec_fetch_site = s.sec_fetch_site;
      sec_fetch_mode = s.sec_fetch_mode;
      sec_fetch_dest = s.sec_fetch_dest;
      sec_fetch_user = s.sec_fetch_user;
      sec_ch_ua = s.sec_ch_ua;
      sec_ch_ua_mobile = s.sec_ch_ua_mobile;
      sec_ch_ua_platform = s.sec_ch_ua_platform;
      sec_purpose = s.sec_purpose;
      purpose = s.purpose;
      x_purpose = s.x_purpose;
      x_moz = s.x_moz;
      country = input.country;
      asn = input.asn;
      visitor_hash = input.visitor_hash;
    }
