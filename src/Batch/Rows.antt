-- ===== src/Batch/Rows.antt =====
-- apps/worker/src/batch/flush.ts: the row that the database gets for a logged event.
pub mod Texts
mod Tests
use Prim.Native.Char.{nul}
use Prim.Native.String
use posta.Shared.{ℕ, String, Bool, Option, none, some, if◌then◌else◌}
use posta.Shared.Text.{includes}
use posta.Core.Enrichment.{UaDeviceType, SourcePlatformValue}
use posta.Core.EventLog.Ndjson.{LoggedEvent}

-- A row of the table `events`. `occurred_at` is `none` where `new Date` gives an invalid date.
pub record NewEvent : Type 0 where
  pub event_id : String
  pub occurred_at : Option ℕ
  pub tenant_id : String
  pub link_id : String
  pub slug : String
  pub visitor_hash : Option String
  pub http_method : Option String
  pub user_agent : Option String
  pub referer : Option String
  pub accept : Option String
  pub accept_language : Option String
  pub sec_fetch_site : Option String
  pub sec_fetch_mode : Option String
  pub sec_fetch_dest : Option String
  pub sec_fetch_user : Option String
  pub sec_purpose : Option String
  pub sec_ch_ua : Option String
  pub sec_ch_ua_mobile : Option String
  pub sec_ch_ua_platform : Option String
  pub purpose : Option String
  pub x_purpose : Option String
  pub x_moz : Option String
  pub country : Option String
  pub asn : Option ℕ
  pub browser : Option String
  pub browser_version : Option String
  pub os : Option String
  pub device_type : UaDeviceType
  pub source_platform : SourcePlatformValue
  pub is_in_app : Bool
  pub dest_host : Option String

-- The text of one character, U+0000.
abbrev pub nul_text : String
nul_text = String.◌∷◌ nul String.[]

abbrev pub sanitize_for_postgres_text : Option String → Option String
sanitize_for_postgres_text none = none
sanitize_for_postgres_text (some value) = if includes value nul_text then none else some value

pub to_new_event_row : (String → Option ℕ) → LoggedEvent → NewEvent
to_new_event_row date_parse logged =
    let e = logged.event in
    let r = logged.enrichment in
    record {
      event_id = e.event_id;
      occurred_at = date_parse e.occurred_at;
      tenant_id = e.tenant_id;
      link_id = e.link_id;
      slug = e.slug;
      visitor_hash = sanitize_for_postgres_text e.visitor_hash;
      http_method = sanitize_for_postgres_text e.http_method;
      user_agent = sanitize_for_postgres_text e.user_agent;
      referer = sanitize_for_postgres_text e.referer;
      accept = sanitize_for_postgres_text e.accept;
      accept_language = sanitize_for_postgres_text e.accept_language;
      sec_fetch_site = sanitize_for_postgres_text e.sec_fetch_site;
      sec_fetch_mode = sanitize_for_postgres_text e.sec_fetch_mode;
      sec_fetch_dest = sanitize_for_postgres_text e.sec_fetch_dest;
      sec_fetch_user = sanitize_for_postgres_text e.sec_fetch_user;
      sec_purpose = sanitize_for_postgres_text e.sec_purpose;
      sec_ch_ua = sanitize_for_postgres_text e.sec_ch_ua;
      sec_ch_ua_mobile = sanitize_for_postgres_text e.sec_ch_ua_mobile;
      sec_ch_ua_platform = sanitize_for_postgres_text e.sec_ch_ua_platform;
      purpose = sanitize_for_postgres_text e.purpose;
      x_purpose = sanitize_for_postgres_text e.x_purpose;
      x_moz = sanitize_for_postgres_text e.x_moz;
      country = sanitize_for_postgres_text e.country;
      asn = e.asn;
      browser = r.browser;
      browser_version = r.browser_version;
      os = r.os;
      device_type = r.device_type;
      source_platform = r.source_platform;
      is_in_app = r.is_in_app;
      dest_host = r.dest_host;
    }
