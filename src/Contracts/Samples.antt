-- ===== src/Contracts/Samples.antt =====
-- A sample domain and a sample event.
use posta.Shared.{refl, String, none, some}
use posta.Contracts.Domain.{UrlBuilders, make_url_builders}
use posta.Contracts.Domain.Handles.{IsDomain}
use posta.Contracts.Capture.{CaptureEvent}

abbrev pub urls : UrlBuilders
urls = make_url_builders (record {
  domain = " Example.test";
  protocol = "https";
  app_subdomain = "app";
  api_subdomain = "api";
})

pub urls-IsDomain : IsDomain urls.domain
urls-IsDomain = record { plain = refl; rooted = refl }

abbrev pub event : String → CaptureEvent
event id = record {
  event_id = id;
  occurred_at = "2026-07-01T10:00:00.000Z";
  tenant_id = "t1";
  link_id = "l1";
  slug = "promo";
  http_method = some "GET";
  user_agent = none;
  referer = none;
  accept = none;
  accept_language = none;
  sec_fetch_site = none;
  sec_fetch_mode = none;
  sec_fetch_dest = none;
  sec_fetch_user = none;
  sec_purpose = none;
  sec_ch_ua = none;
  sec_ch_ua_mobile = none;
  sec_ch_ua_platform = none;
  purpose = none;
  x_purpose = none;
  x_moz = none;
  country = none;
  asn = none;
  visitor_hash = none;
}
