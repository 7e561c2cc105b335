-- ===== src/Redirect/Host/Tests.antt =====
-- Requests at a handle's host, and the decoding of a path.
use posta.Shared.{◌≡◌, refl, String, arith, [], ◌∷◌, none, some, ok, true, false}
use posta.Shared.Text.{utf16_length, units}
use posta.Shared.Uri.{decode_uri_component}
use posta.Contracts.Domain.{assert_claimable_handle, build_link_url, parse_handle_from_host}
use posta.Contracts.Domain.Hosts.{IsHandle}
use posta.Contracts.Domain.Handles.{IsHostOf}
use posta.Contracts.Reserved.{
  resolve_reserved_handles, reserved_handles, is_reserved_handle, is_reserved_path,
}
use posta.Contracts.Slugs.{is_valid_slug}
use posta.Contracts.Samples.{urls, urls-IsDomain}
use posta.Redirect.Handler.{link, handle_root, reserved_handle, invalid_path}
use posta.Redirect.Host.{RequestTargetParserConfig, extract_slug, parse_request_target}
use posta.Redirect.Host.Targets.{
  IsAddress, parse_request_target-IsAddress, build_link_url-parse_request_target,
}

abbrev config : RequestTargetParserConfig
config = record { urls = urls; reserved_handles = reserved_handles }

-- One character of each length in bytes.
decode_lengths : decode_uri_component "%41%C3%A9%e2%82%ac%F0%9F%98%80" ≡ some "Aé€😀"
decode_lengths = refl

-- A byte too many or too few, a form that is too long, half a surrogate pair, and no digits.
decode_refused :
    (decode_uri_component "%80" ≡ none)
    × (decode_uri_component "%C3" ≡ none)
    × (decode_uri_component "%C0%AF" ≡ none)
    × (decode_uri_component "%ED%A0%80" ≡ none)
    × (decode_uri_component "%zz" ≡ none)
decode_refused = (refl, refl, refl, refl, refl)

resolve_twice :
    resolve_reserved_handles (" Shop" ∷ "app" ∷ " " ∷ "shop" ∷ [])
    ≡ "app" ∷ "api" ∷ "www" ∷ "admin" ∷ "static" ∷ "assets" ∷ "cdn" ∷ "mail" ∷ "blog" ∷ "docs"
      ∷ "status" ∷ "shop" ∷ []
unfolding resolve_reserved_handles
resolve_twice = refl

well_known :
    (is_reserved_path "/.well-known/acme" ≡ true)
    × (is_reserved_path "/.Well-Known" ≡ true)
    × (is_reserved_path "/.well-knownx" ≡ false)
    × (is_reserved_path "" ≡ true)
unfolding is_reserved_path
well_known = (refl, refl, refl, refl)

target-slug : parse_request_target config "jua.example.test" "/%67o" ≡ link "jua" "go"
unfolding parse_request_target parse_handle_from_host is_reserved_handle is_reserved_path
    extract_slug is_valid_slug utf16_length units
target-slug = refl

target-traversal : parse_request_target config "jua.example.test" "/a%2fb" ≡ invalid_path
unfolding parse_request_target parse_handle_from_host is_reserved_handle is_reserved_path
    extract_slug is_valid_slug utf16_length units
target-traversal = refl

target-root : parse_request_target config "jua.example.test" "/" ≡ handle_root "jua"
unfolding parse_request_target parse_handle_from_host is_reserved_handle utf16_length units
target-root = refl

target-reserved : parse_request_target config "www.example.test" "/" ≡ reserved_handle "www"
unfolding parse_request_target parse_handle_from_host is_reserved_handle utf16_length units
target-reserved = refl

address : IsAddress config "jua" "go"
unfolding is_reserved_handle is_valid_slug utf16_length units
address = record { open_handle = refl; valid = refl }

short : utf16_length "jua" ≡ 3
unfolding utf16_length units
short = refl

built : build_link_url urls "jua" "go" ≡ ok "https://jua.example.test/go"
unfolding build_link_url assert_claimable_handle
built = refl

parse_request_target-IsAddress_example :
    IsHandle urls "jua"
    × IsHostOf urls "jua" "jua.example.test"
    × (extract_slug "/%67o" ≡ some "go")
    × IsAddress config "jua" "go"
parse_request_target-IsAddress_example =
    parse_request_target-IsAddress config "jua.example.test" "/%67o" "jua" "go" urls-IsDomain
      target-slug

build_link_url-parse_request_target_example :
    (◌≡◌ {A = String} "https://jua.example.test/go" "https://jua.example.test/go")
    × (parse_request_target config "jua.example.test" "/go" ≡ link "jua" "go")
build_link_url-parse_request_target_example =
    build_link_url-parse_request_target config "jua" "go" "https://jua.example.test/go"
      urls-IsDomain built address (omega (arith, short))
