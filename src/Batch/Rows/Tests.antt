-- ===== src/Batch/Rows/Tests.antt =====
-- The row of an event with a U+0000 in its user agent.
use posta.Shared.{◌≡◌, refl, none, some, false, All}
use posta.Core.Enrichment.{directo, unknown}
use posta.Core.EventLog.Ndjson.{LoggedEvent}
use posta.Batch.Samples.{event}
use posta.Batch.Rows.{to_new_event_row, nul_text}
use posta.Batch.Rows.Texts.{request_texts, IsClean, to_new_event_row-IsClean}

abbrev logged : LoggedEvent
logged = record {
  event = record (event "a") { user_agent = some nul_text };
  enrichment = record {
    browser = none;
    browser_version = none;
    os = none;
    device_type = unknown;
    source_platform = directo;
    is_in_app = false;
    dest_host = none;
  };
}

to_new_event_row-IsClean_example :
    All IsClean (request_texts (to_new_event_row (λ text. some 0) logged))
to_new_event_row-IsClean_example = to_new_event_row-IsClean (λ text. some 0) logged

dropped : (to_new_event_row (λ text. some 0) logged).user_agent ≡ none
unfolding to_new_event_row
dropped = refl
