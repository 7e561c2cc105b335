-- ===== src/Core/Enrichment/Tests.antt =====
-- Enrichment of clicks.
use posta.Shared.{◌≡◌, refl, true, none, some, ok, throw, str_eq, if◌then◌else◌}
use posta.Shared.Thrown.{new_error}
use posta.Core.Enrichment.{
  EnrichDeps, enrich, parse_user_agent, dest_host, resolve_source_platform, is_in_app, desktop,
  instagram,
}

-- A parser that knows one address and takes each user agent for a browser of its own name.
abbrev pub parsers : EnrichDeps
parsers = record {
  parse_ua = λ ua. ok (record {
    browser_name = some "Chrome";
    browser_version = some "1";
    os_name = none;
    device_type = none;
  });
  url_hostname = λ text.
      if str_eq text "https://Example.com/a"
      then ok "Example.com"
      else throw (new_error "Invalid URL");
}

opened : Unit {0}
unfolding enrich parse_user_agent dest_host resolve_source_platform is_in_app
opened = tt

enriched :
    enrich parsers (some "Mozilla Instagram 1") (some "nowhere") (some "https://Example.com/a")
    ≡ record {
      browser = some "Chrome";
      browser_version = some "1";
      os = none;
      device_type = desktop;
      source_platform = instagram;
      is_in_app = true;
      dest_host = some "example.com";
    }
unfolding opened
enriched = refl

ua_platform :
    resolve_source_platform parsers (some "nowhere") (some "Mozilla Instagram 1") ≡ instagram
unfolding opened
ua_platform = refl
