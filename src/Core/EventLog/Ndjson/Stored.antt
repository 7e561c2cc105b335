-- ===== src/Core/EventLog/Ndjson/Stored.antt =====
-- The log of a store that holds what was written to it, and the rule for a loop over it.
use posta.Shared.Loops.{for_each-append, for_each}
use posta.Shared.{
  ◌≡◌, refl, sym, ap, ◌∙◌, ℕ, ◌≤◌, String, List, [], ◌∷◌, ◌++◌, Option, none, some, length, All,
  Act, ok, continue, ◌>>=◌,
}
use posta.Shared.Binding.{bind_cong}
use posta.Core.EventLog.Ndjson.{
  LoggedEvent, serialize_batch, ListPage, LogDeps, list_object_keys, stream_records_from_object,
  stream_event_log,
}
use posta.Core.EventLog.Ndjson.Lines.{IsOneLine}
use posta.Core.EventLog.Ndjson.Streaming.{
  Listing, all_keys, list_object_keys-for_each, IsReadBack,
  stream_records_from_object-serialize_batch,
}

-- Each prefix is listed in pages, of which there are at most `rounds`; each key has the lines of its events;
-- `JSON.parse` reads back what `JSON.stringify` wrote; and no text of an event has the character U+2028 or U+2029.
pub record IsStored {W : Type 0} (deps : LogDeps W) (rounds : ℕ)
    (serve : String → Option String → ListPage) (pages : String → List ListPage)
    (events : String → List LoggedEvent) : Type 0 where
  pub lists :
      (prefix : String) (token : Option String) (w : W)
      → deps.list_page prefix token w ≡ (ok (serve prefix token), w)
  pub listing : (prefix : String) → Listing (serve prefix) none (pages prefix)
  pub room : (prefix : String) → length (pages prefix) ≤ rounds
  pub objects :
      (key : String) (w : W) → deps.get_object key w ≡ (ok (some (serialize_batch (events key))), w)
  pub reads : (key : String) → All (IsReadBack deps.json_parse) (events key)
  pub lines : (key : String) → All IsOneLine (events key)

abbrev pub events_of_keys : (String → List LoggedEvent) → List String → List LoggedEvent
events_of_keys events [] = []
events_of_keys events (key ∷ keys) = events key ++ events_of_keys events keys

-- The events under the prefixes, in the order of the listing.
abbrev pub stored_events :
    (String → List ListPage) → (String → List LoggedEvent) → List String → List LoggedEvent
stored_events pages events [] = []
stored_events pages events (prefix ∷ prefixes) =
    events_of_keys events (all_keys (pages prefix)) ++ stored_events pages events prefixes

module _ {W A B : Type 0} where
  bind_first : (m n : Act W A) (f : A → Act W B) (w : W) → m w ≡ n w → (m >>= f) w ≡ (n >>= f) w
  unfolding ◌>>=◌
  bind_first m n f w e = ap (λ r. continue r.0 f r.1) e

module _ {W : Type 0} {deps : LogDeps W} {rounds : ℕ} {serve : String → Option String → ListPage}
    {pages : String → List ListPage} {events : String → List LoggedEvent}
    (stored : IsStored deps rounds serve pages events) (body : LoggedEvent → Act W (Unit {0})) where
  keys-for_each :
      (keys : List String) (w : W)
      → for_each (stream_records_from_object deps body) keys w
        ≡ for_each body (events_of_keys events keys) w
  unfolding for_each
  keys-for_each [] w = refl
  keys-for_each (key ∷ keys) w =
      bind_first (stream_records_from_object deps body key) (for_each body (events key)) _ w (
        stream_records_from_object-serialize_batch deps body key (events key) w (stored.reads key)
          (stored.lines key) (stored.objects key w))
      ∙ bind_cong (for_each body (events key)) _ _ w (λ _ v. keys-for_each keys v)
      ∙ sym (for_each-append body (events key) (events_of_keys events keys) w)

  -- What is streamed is what is stored.
  pub stream_event_log-for_each :
      (prefixes : List String) (w : W)
      → stream_event_log deps body rounds prefixes w
        ≡ for_each body (stored_events pages events prefixes) w
  unfolding stream_event_log for_each
  stream_event_log-for_each [] w = refl
  stream_event_log-for_each (prefix ∷ prefixes) w =
      bind_first (list_object_keys deps (stream_records_from_object deps body) rounds prefix none)
        (for_each body (events_of_keys events (all_keys (pages prefix)))) _ w
        (list_object_keys-for_each deps (stream_records_from_object deps body) (serve prefix) prefix
            (stored.lists prefix) none (pages prefix) rounds w (stored.listing prefix)
            (stored.room prefix)
          ∙ keys-for_each (all_keys (pages prefix)) w)
      ∙ bind_cong (for_each body (events_of_keys events (all_keys (pages prefix)))) _ _ w
          (λ _ v. stream_event_log-for_each prefixes v)
      ∙ sym (
          for_each-append body (events_of_keys events (all_keys (pages prefix)))
            (stored_events pages events prefixes) w)
