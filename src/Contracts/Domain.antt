-- ===== src/Contracts/Domain.antt =====
-- packages/contracts/src/domain.ts: the hosts and URLs that are made of the configured domain, and the handle that
-- is read off a Host header. What the builders close over is a record.
pub mod Hosts
pub mod Handles
mod Tests
use Prim.Native.Char.{Char, code}
use Prim.Native.String
use posta.Shared.{
  ℕ, String, Bool, false, not, ◌&&◌, ◌||◌, [], ◌∷◌, Option, none, some, or_else, if◌then◌else◌, leb,
  ltb, ◌==◌, str_eq, Outcome, ok, throw, bind_outcome,
}
use posta.Shared.Text.{to_lower_case, trim, concat, utf16_length, starts_with, strip_suffix}
use posta.Shared.Chars.{every}
use posta.Shared.Thrown.{new_error}

pub record DomainConfig : Type 0 where
  pub domain : String
  pub protocol : String
  pub app_subdomain : String
  pub api_subdomain : String

abbrev pub is_alnum : ℕ → Bool
is_alnum n = leb 97 n && leb n 122 || leb 48 n && leb n 57

abbrev pub is_label_char : ℕ → Bool
is_label_char n = is_alnum n || n == 45

-- The rest of a label after a character: label characters, of which the last is no dash.
abbrev pub ends_label : Char → String → Bool
ends_label c String.[] = is_alnum (code c)
ends_label c (String.◌∷◌ d s) = is_label_char (code d) && ends_label d s

-- `HANDLE_PATTERN.test(text)`
abbrev pub handle_pattern : String → Bool
handle_pattern String.[] = false
handle_pattern (String.◌∷◌ c s) = is_alnum (code c) && ends_label c s

abbrev pub handle_max_length : ℕ
handle_max_length = 63

abbrev pub normalize_label : String → String
normalize_label value = to_lower_case (trim value)

-- `normalizePath`, for what follows an origin.
abbrev pub after_origin : String → String
after_origin path =
    if str_eq path "" then "" else if starts_with "/" path then path else String.◌++◌ "/" path

abbrev pub colon_step : Char → String → Option (String × String) → Option (String × String)
colon_step c s (some (host, port)) = some (String.◌∷◌ c host, port)
colon_step c s none = if code c == 58 then some ("", s) else none

-- What stands before and after `text.lastIndexOf(':')`.
abbrev pub at_last_colon : String → Option (String × String)
at_last_colon String.[] = none
at_last_colon (String.◌∷◌ c s) = colon_step c s (at_last_colon s)

abbrev pub is_decimal : ℕ → Bool
is_decimal n = leb 48 n && leb n 57

-- `/^\d+$/.test(text)`
abbrev pub is_port : String → Bool
is_port text = not (str_eq text "") && every is_decimal text

abbrev pub without_port : String → Option (String × String) → String
without_port host none = host
without_port host (some (before, maybe_port)) = if is_port maybe_port then before else host

abbrev pub strip_port : String → String
strip_port host = without_port host (at_last_colon host)

-- `host.endsWith('.') ? host.slice(0, -1) : host`
abbrev pub without_root_dot : String → String
without_root_dot host = or_else (strip_suffix "." host) host

-- What `makeUrlBuilders` computes once.
pub record UrlBuilders : Type 0 where
  pub domain : String
  pub protocol : String
  pub app_subdomain : String
  pub api_subdomain : String

abbrev pub make_url_builders : DomainConfig → UrlBuilders
make_url_builders config = record {
  domain = normalize_label config.domain;
  protocol = config.protocol;
  app_subdomain = normalize_label config.app_subdomain;
  api_subdomain = normalize_label config.api_subdomain;
}

module _ (urls : UrlBuilders) where
  abbrev pub domain_suffix : String
  domain_suffix = String.◌++◌ "." urls.domain

  abbrev pub is_reserved_subdomain : String → Bool
  is_reserved_subdomain label = str_eq label urls.app_subdomain || str_eq label urls.api_subdomain

  abbrev pub host_for : String → String
  host_for label = String.◌++◌ label domain_suffix

  abbrev pub origin_for : String → String
  origin_for hostname = concat (urls.protocol ∷ "://" ∷ hostname ∷ [])

  unfoldable pub assert_claimable_handle : String → Outcome String
  assert_claimable_handle handle =
      let normalized = normalize_label handle in
      if not (handle_pattern normalized)
      then throw (new_error (concat ("Invalid handle: \"" ∷ handle ∷ "\"" ∷ [])))
      else if is_reserved_subdomain normalized
      then throw (
          new_error (
            concat (
              "Handle \"" ∷ handle
              ∷ "\" collides with this deployment's app/api host (POSTA_APP_SUBDOMAIN/POSTA_API_SUBDOMAIN)"
              ∷ " and cannot be used. This does not check the full reserved-handle list — that gate lives"
              ∷ " at handle creation time (S5.3)." ∷ [])))
      else ok normalized

  abbrev pub link_url : String → String → Outcome String
  link_url slug handle =
      if str_eq (trim slug) ""
      then throw (new_error "slug must not be empty")
      else ok (concat (origin_for (host_for handle) ∷ "/" ∷ trim slug ∷ []))

  unfoldable pub build_link_url : (handle slug : String) → Outcome String
  build_link_url handle slug = bind_outcome (assert_claimable_handle handle) (link_url slug)

  pub build_bio_url : String → Outcome String
  build_bio_url handle =
      bind_outcome (assert_claimable_handle handle)
        λ label. ok (concat (origin_for (host_for label) ∷ "/" ∷ []))

  pub build_app_url : String → String
  build_app_url path = String.◌++◌ (origin_for (host_for urls.app_subdomain)) (after_origin path)

  pub build_api_url : String → String
  build_api_url path = String.◌++◌ (origin_for (host_for urls.api_subdomain)) (after_origin path)

  abbrev pub claimed_label : Option String → Option String
  claimed_label none = none
  claimed_label (some label) =
      if str_eq label "" || ltb handle_max_length (utf16_length label)
      then none
      else if not (handle_pattern label)
      then none
      else if is_reserved_subdomain label
      then none
      else some label

  abbrev pub handle_of_host : String → Option String
  handle_of_host host =
      if str_eq host ""
      then none
      else if str_eq host urls.domain
      then none
      else claimed_label (strip_suffix domain_suffix host)

  unfoldable pub parse_handle_from_host : String → Option String
  parse_handle_from_host raw_host =
      handle_of_host (without_root_dot (strip_port (normalize_label raw_host)))
