-- ===== src/Redirect/Host.antt =====
-- apps/api/src/redirect/host.ts: what a request's host and path address.
pub mod Slugs
pub mod Targets
mod Tests
use Prim.Native.Char.{code}
use posta.Shared.{
  ℕ, ◌*◌, Bool, not, ◌&&◌, ◌||◌, List, Option, none, some, if◌then◌else◌, String, ltb, ◌==◌, str_eq,
}
use posta.Shared.Text.{utf16_length}
use posta.Shared.Chars.{every}
use posta.Shared.Uri.{decode_uri_component}
use posta.Contracts.Domain.{UrlBuilders, parse_handle_from_host}
use posta.Contracts.Reserved.{is_reserved_handle, is_reserved_path}
use posta.Contracts.Slugs.{slug_max_length, is_valid_slug}
use posta.Redirect.Handler.{
  RequestTarget, link, handle_root, reserved_path, reserved_handle, invalid_path, not_ours,
}

pub record RequestTargetParserConfig : Type 0 where
  pub urls : UrlBuilders
  pub reserved_handles : List String

abbrev pub max_encoded_slug_length : ℕ
max_encoded_slug_length = slug_max_length * 3

abbrev pub is_slash : ℕ → Bool
is_slash n = n == 47

abbrev pub no_slash : ℕ → Bool
no_slash n = not (n == 47)

-- `ONLY_SLASHES.test(path)`
abbrev pub only_slashes : String → Bool
only_slashes path = not (str_eq path "") && every is_slash path

-- `decoded.includes('/') ? undefined : decoded`
abbrev pub single_segment : Option String → Option String
single_segment none = none
single_segment (some decoded) = if not (every no_slash decoded) then none else some decoded

abbrev pub decode_slug : String → Option String
decode_slug encoded =
    if str_eq encoded ""
    then none
    else if ltb max_encoded_slug_length (utf16_length encoded)
    then none
    else if not (every no_slash encoded)
    then none
    else single_segment (decode_uri_component encoded)

unfoldable pub extract_slug : String → Option String
extract_slug String.[] = none
extract_slug (String.◌∷◌ c encoded) = if code c == 47 then decode_slug encoded else none

abbrev pub slug_target : String → Option String → RequestTarget
slug_target handle none = invalid_path
slug_target handle (some slug) = if not (is_valid_slug slug) then invalid_path else link handle slug

module _ (config : RequestTargetParserConfig) where
  abbrev pub target_on_host : Option String → String → RequestTarget
  target_on_host none path = not_ours
  target_on_host (some handle) path =
      if is_reserved_handle handle config.reserved_handles
      then reserved_handle handle
      else if str_eq path "" || str_eq path "/"
      then handle_root handle
      else if only_slashes path
      then invalid_path
      else if is_reserved_path path
      then reserved_path
      else slug_target handle (extract_slug path)

  pub parse_request_target : (host path : String) → RequestTarget
  parse_request_target host path = target_on_host (parse_handle_from_host config.urls host) path
