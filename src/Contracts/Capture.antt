-- ===== src/Contracts/Capture.antt =====
-- packages/contracts/src/capture.ts: the event that the redirect captures, and that the queue, the
-- event log and the database carry. `zNullableSignal` is `Option String`; `asn` is a number in the
-- schema and a natural number here.
use posta.Shared.{ℕ, String, Option}

pub record CaptureEvent : Type 0 where
  pub event_id : String
  pub occurred_at : String
  pub tenant_id : String
  pub link_id : String
  pub slug : String
  pub http_method : Option String
  pub user_agent : Option String
  pub referer : Option String
  pub accept : Option String
  pub accept_language : Option String
  pub sec_fetch_site : Option String
  pub sec_fetch_mode : Option String
  pub sec_fetch_dest : Option String
  pub sec_fetch_user : Option String
  pub sec_purpose : Option String
  pub sec_ch_ua : Option String
  pub sec_ch_ua_mobile : Option String
  pub sec_ch_ua_platform : Option String
  pub purpose : Option String
  pub x_purpose : Option String
  pub x_moz : Option String
  pub country : Option String
  pub asn : Option ℕ
  pub visitor_hash : Option String
