-- ===== src/Core/EventLog/Ndjson/Streaming.antt =====
-- The log read back: every page of a listing, every line of an object, in order.
use posta.Shared.Loops.{for_each-append, for_each}
use posta.Shared.{
  Outcome, All, append-nil, ℕ, zero, suc, ◌+◌, ◌≤◌, ◌≡◌, refl, sym, ap, ◌∙◌, String, true, false,
  List, [], ◌∷◌, ◌++◌, map, Option, some, length, str_eq, Act, ok, ◌>>=◌, ◌>>◌, arith,
}
use posta.Shared.Binding.{lift-bind, bind_cong, bind-pure}
use posta.Core.EventLog.Ndjson.{
  LoggedEvent, Parsed, serialize_event, serialize_batch, object, ListPage, LogDeps, keys_of, truthy,
  next_page, list_object_keys, to_log_line, stream_lines, stream_body, stream_records_from_object,
}
use posta.Core.EventLog.Json.Plain.{stringify-not_empty}
use posta.Core.EventLog.Ndjson.Lines.{IsOneLine, split_lines-serialize_batch}

-- The pages that a storage service serves from a token on: all but the last are truncated, and each
-- of those names the next.
pub data Listing (serve : Option String → ListPage) : Option String → List ListPage → Type 0 where
  last :
      (token : Option String)
      → (serve token).is_truncated ≡ false
      → Listing serve token (serve token ∷ [])
  more :
      (token : Option String) (next : String) (pages : List ListPage)
      → (serve token).is_truncated ≡ true
      → truthy (serve token).next_continuation_token ≡ some next
      → Listing serve (some next) pages
      → Listing serve token (serve token ∷ pages)

abbrev pub all_keys : List ListPage → List String
all_keys [] = []
all_keys (page ∷ pages) = keys_of page.contents ++ all_keys pages

no_room : (n : ℕ) → suc n ≤ 0 → ⊥
no_room n h = omega arith

module _ {W : Type 0} (deps : LogDeps W) (body : String → Act W (Unit {0}))
    (serve : Option String → ListPage) (prefix : String)
    (serves : (token : Option String) (w : W)
      → deps.list_page prefix token w ≡ (ok (serve token), w)) where
  one_page :
      (fuel : ℕ) (token : Option String) (w : W)
      → list_object_keys deps body (suc fuel) prefix token w
        ≡ (do
          for_each body (keys_of (serve token).contents)
          next_page deps
              (list_object_keys deps body fuel prefix)
              prefix
              (serve token).is_truncated
              (truthy (serve token).next_continuation_token))
            w
  unfolding list_object_keys ◌>>=◌
  one_page fuel token w = rw (serves token w) refl

  -- However the service cuts a listing into pages, the keys of all pages reach the body, each once and in
  -- order, as if the listing were one list; a round of fuel for each page is enough.
  pub list_object_keys-for_each :
      (token : Option String) (pages : List ListPage) (fuel : ℕ) (w : W)
      → Listing serve token pages
      → length pages ≤ fuel
      → list_object_keys deps body fuel prefix token w ≡ for_each body (all_keys pages) w
  list_object_keys-for_each token pages zero w (last t h) k = elim (no_room 0 k) [ ]
  list_object_keys-for_each token pages zero w (more t n ps h e l) k =
      elim (no_room (length ps) k) [ ]
  list_object_keys-for_each token pages (suc fuel) w (last t h) k =
      one_page fuel t w
      ∙ bind_cong (for_each body (keys_of (serve t).contents)) _ _ w (λ _ v. rw h refl)
      ∙ bind-pure (for_each body (keys_of (serve t).contents)) w
      ∙ ap (λ ks. for_each body ks w) (sym (append-nil (keys_of (serve t).contents)))
  list_object_keys-for_each token pages (suc fuel) w (more t n ps h e l) k =
      one_page fuel t w
      ∙ bind_cong (for_each body (keys_of (serve t).contents)) _ _ w
          (λ _ v. rw (h, e) (list_object_keys-for_each (some n) ps fuel v l (omega arith)))
      ∙ sym (for_each-append body (keys_of (serve t).contents) (all_keys ps) w)

serialize_event-not_empty : (event : LoggedEvent) → str_eq (serialize_event event) "" ≡ false
unfolding serialize_event to_log_line
serialize_event-not_empty event = stringify-not_empty _ _

-- `JSON.parse` reads back what `JSON.stringify` wrote of the event.
abbrev pub IsReadBack : (String → Outcome Parsed) → LoggedEvent → Type 0
IsReadBack json_parse event = json_parse (serialize_event event) ≡ ok (object event)

module _ {W : Type 0} (deps : LogDeps W) (body : LoggedEvent → Act W (Unit {0})) where
  stream_lines-for_each :
      (key : String) (events : List LoggedEvent) (n : ℕ) (w : W)
      → All (IsReadBack deps.json_parse) events
      → stream_lines deps body key n (map serialize_event events) w ≡ for_each body events w
  unfolding stream_lines for_each
  stream_lines-for_each key [] n w h = refl
  stream_lines-for_each key (event ∷ events) n w (h, hs) =
      rw (serialize_event-not_empty event, h)
        (lift-bind event
            (λ e. body e >> stream_lines deps body key (n + 1) (map serialize_event events)) w
          ∙ bind_cong (body event) _ _ w λ _ v. stream_lines-for_each key events (n + 1) v hs)

  -- Where `JSON.parse` reads back what `JSON.stringify` wrote of each event, and no text of an event has the character
  -- U+2028 or U+2029 (which `readline` takes for an end of line and `JSON.stringify` does not escape), an object that
  -- holds `serializeBatch` of the events is streamed as exactly those events, each once and in order.
  pub stream_records_from_object-serialize_batch :
      (key : String) (events : List LoggedEvent) (w : W)
      → All (IsReadBack deps.json_parse) events
      → All IsOneLine events
      → deps.get_object key w ≡ (ok (some (serialize_batch events)), w)
      → stream_records_from_object deps body key w ≡ for_each body events w
  unfolding stream_records_from_object stream_body ◌>>=◌
  stream_records_from_object-serialize_batch key events w p lines h =
      rw (h, split_lines-serialize_batch events lines) (stream_lines-for_each key events 0 w p)
