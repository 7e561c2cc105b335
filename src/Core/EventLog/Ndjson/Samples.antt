-- ===== src/Core/EventLog/Ndjson/Samples.antt =====
-- A sample store: each prefix has one object, and each object two events.
use posta.Shared.{
  refl, arith, String, false, List, [], ◌∷◌, Option, none, some, str_eq, if◌then◌else◌, ok, throw,
}
use posta.Shared.Thrown.{new_error}
use posta.Contracts.Samples.{event}
use posta.Core.Enrichment.{directo, unknown}
use posta.Core.EventLog.Json.{
  escape, quote, stringify_value, stringify_field, stringify_rest, stringify,
}
use posta.Core.EventLog.Ndjson.{
  LoggedEvent, ListPage, LogDeps, object, to_log_line, serialize_event, serialize_batch,
}
use posta.Core.EventLog.Ndjson.Streaming.{last}
use posta.Core.EventLog.Ndjson.Stored.{IsStored}

abbrev pub logged : String → LoggedEvent
logged id = record {
  event = event id;
  enrichment = record {
    browser = none;
    browser_version = none;
    os = none;
    device_type = unknown;
    source_platform = directo;
    is_in_app = false;
    dest_host = none;
  };
}

abbrev pub serve : String → Option String → ListPage
serve prefix token = record {
  contents = some prefix ∷ [];
  is_truncated = false;
  next_continuation_token = none;
}

abbrev pub pages : String → List ListPage
pages prefix = serve prefix none ∷ []

abbrev pub events : String → List LoggedEvent
events key = logged "a" ∷ logged "b" ∷ []

abbrev pub store : {W : Type 0} → LogDeps W
store = record {
  list_page = λ prefix token w. (ok (serve prefix token), w);
  get_object = λ key w. (ok (some (serialize_batch (events key))), w);
  json_parse = λ line.
      if str_eq line (serialize_event (logged "a"))
      then ok (object (logged "a"))
      else if str_eq line (serialize_event (logged "b"))
      then ok (object (logged "b"))
      else throw (new_error "Unexpected token");
}

opened : Unit {0}
unfolding to_log_line serialize_event escape quote stringify_value stringify_field stringify_rest
    stringify
opened = tt

pub store-IsStored : {W : Type 0} → IsStored (store {W = W}) 1 serve pages events
unfolding opened
store-IsStored = record {
  lists = λ prefix token w. refl;
  listing = λ prefix. last none refl;
  room = λ prefix. omega arith;
  objects = λ key w. refl;
  reads = λ key. (refl, (refl, tt));
  lines = λ key. (refl, (refl, tt));
}
