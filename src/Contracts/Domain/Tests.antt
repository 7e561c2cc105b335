-- ===== src/Contracts/Domain/Tests.antt =====
-- A handle of three letters, in a domain of two labels.
use posta.Shared.{◌≡◌, refl, ◌↔◌, none, some, ok}
use posta.Shared.Text.{utf16_length, units}
use posta.Contracts.Domain.{
  assert_claimable_handle, build_link_url, build_bio_url, build_app_url, build_api_url,
  parse_handle_from_host,
}
use posta.Contracts.Domain.Hosts.{IsHandle}
use posta.Contracts.Domain.Handles.{
  IsHostOf, IsLinkUrl, parse_handle_from_host-IsHostOf, build_link_url-IsLinkUrl,
}
use posta.Contracts.Samples.{urls, urls-IsDomain}

parse-port : parse_handle_from_host urls " JUA.Example.TEST.:3000 " ≡ some "jua"
unfolding parse_handle_from_host utf16_length units
parse-port = refl

parse-apex : parse_handle_from_host urls "example.test" ≡ none
unfolding parse_handle_from_host utf16_length units
parse-apex = refl

parse-foreign : parse_handle_from_host urls "jua.example.com" ≡ none
unfolding parse_handle_from_host utf16_length units
parse-foreign = refl

parse-deep : parse_handle_from_host urls "a.b.example.test" ≡ none
unfolding parse_handle_from_host utf16_length units
parse-deep = refl

parse-app : parse_handle_from_host urls "app.example.test" ≡ none
unfolding parse_handle_from_host utf16_length units
parse-app = refl

build-link : build_link_url urls " Jua" "go " ≡ ok "https://jua.example.test/go"
unfolding build_link_url assert_claimable_handle
build-link = refl

build-bio : build_bio_url urls "jua" ≡ ok "https://jua.example.test/"
unfolding build_bio_url assert_claimable_handle
build-bio = refl

build-app : build_app_url urls "x" ≡ "https://app.example.test/x"
unfolding build_app_url
build-app = refl

build-api : build_api_url urls "/v1" ≡ "https://api.example.test/v1"
unfolding build_api_url
build-api = refl

parse_handle_from_host-IsHostOf_example :
    (parse_handle_from_host urls "JUA.example.test:3000" ≡ some "jua")
    ↔ (IsHandle urls "jua" × IsHostOf urls "jua" "JUA.example.test:3000")
parse_handle_from_host-IsHostOf_example =
    parse_handle_from_host-IsHostOf urls "jua" "JUA.example.test:3000" urls-IsDomain

build_link_url-IsLinkUrl_example : IsLinkUrl urls " Jua" "go " "https://jua.example.test/go"
build_link_url-IsLinkUrl_example =
    build_link_url-IsLinkUrl urls " Jua" "go " "https://jua.example.test/go" urls-IsDomain
      build-link
