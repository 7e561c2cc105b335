-- ===== src/Core/EventLog/Ndjson/Tests.antt =====
-- Events written as lines and read back.
use posta.Shared.Loops.{for_each}
use posta.Shared.{
  ◌≡◌, refl, String, true, false, List, [], ◌∷◌, ◌++◌, Option, none, some, str_eq, if◌then◌else◌,
  Act, ok, throw, length,
}
use posta.Shared.Thrown.{new_error}
use posta.Contracts.Samples.{event}
use posta.Core.Enrichment.{directo, unknown}
use posta.Core.EventLog.Json.{
  escape, quote, stringify_value, stringify_field, stringify_rest, stringify,
}
use posta.Core.EventLog.Ndjson.{
  LoggedEvent, ListPage, LogDeps, object, to_log_line, serialize_event, serialize_batch,
  split_lines, stream_records_from_object,
}
use posta.Core.EventLog.Ndjson.Streaming.{
  Listing, last, more, stream_records_from_object-serialize_batch,
}

abbrev logged : String → LoggedEvent
logged id = record {
  event = record (event id) { user_agent = some "two\nlines" };
  enrichment = record {
    browser = none;
    browser_version = none;
    os = none;
    device_type = unknown;
    source_platform = directo;
    is_in_app = false;
    dest_host = none;
  };
}

abbrev two_events : List LoggedEvent
two_events = logged "a" ∷ logged "b" ∷ []

-- A listing of two pages, the second under the token "t".
abbrev serve : Option String → ListPage
serve none = record {
  contents = some "k1" ∷ none ∷ some "k2" ∷ [];
  is_truncated = true;
  next_continuation_token = some "t";
}
serve (some token) = record {
  contents = some "k3" ∷ [];
  is_truncated = false;
  next_continuation_token = none;
}

abbrev pages : List ListPage
pages = serve none ∷ serve (some "t") ∷ []

pages-Listing : Listing serve none pages
pages-Listing = more none "t" (serve (some "t") ∷ []) refl refl (last (some "t") refl)

-- A store that holds one object, and a consumer that keeps what it gets.
abbrev store : LogDeps (List LoggedEvent)
store = record {
  list_page = λ prefix token w. (ok (serve token), w);
  get_object = λ key w. (ok (some (serialize_batch two_events)), w);
  json_parse = λ line.
      if str_eq line (serialize_event (logged "a"))
      then ok (object (logged "a"))
      else if str_eq line (serialize_event (logged "b"))
      then ok (object (logged "b"))
      else throw (new_error "Unexpected token");
}

abbrev keep_key : String → Act (List LoggedEvent) (Unit {0})
keep_key key w = (ok tt, w ++ logged key ∷ [])

abbrev keep : LoggedEvent → Act (List LoggedEvent) (Unit {0})
keep e w = (ok tt, w ++ e ∷ [])

opened : Unit {0}
unfolding to_log_line serialize_event escape quote stringify_value stringify_field stringify_rest
    stringify
opened = tt

stream_records_from_object-serialize_batch_example :
    stream_records_from_object store keep "k1" [] ≡ for_each keep two_events []
unfolding opened
stream_records_from_object-serialize_batch_example =
    stream_records_from_object-serialize_batch store keep "k1" two_events [] (refl, (refl, tt))
      (refl, (refl, tt)) refl

-- A separator in a text breaks the line of its event.
abbrev broken : LoggedEvent
broken = record (logged "c") { event = record (event "c") { referer = some "a\u{2028}b" } }

broken-lines : length (split_lines false (serialize_batch (broken ∷ []))) ≡ 2
unfolding opened serialize_batch
broken-lines = refl
