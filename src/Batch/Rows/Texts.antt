-- ===== src/Batch/Rows/Texts.antt =====
-- The texts that come from a request's headers reach the database without the character U+0000.
use posta.Shared.{
  map, ℕ, ◌≡◌, String, false, List, [], ◌∷◌, Option, none, some, All, Bool-cases, inl, inr,
}
use posta.Shared.Text.{includes}
use posta.Core.EventLog.Ndjson.{LoggedEvent}
use posta.Batch.Rows.{NewEvent, nul_text, sanitize_for_postgres_text, to_new_event_row}

-- The columns that hold a text of the request.
abbrev pub request_texts : NewEvent → List (Option String)
request_texts row =
    row.visitor_hash ∷ row.http_method ∷ row.user_agent ∷ row.referer ∷ row.accept
    ∷ row.accept_language ∷ row.sec_fetch_site ∷ row.sec_fetch_mode ∷ row.sec_fetch_dest
    ∷ row.sec_fetch_user ∷ row.sec_purpose ∷ row.sec_ch_ua ∷ row.sec_ch_ua_mobile
    ∷ row.sec_ch_ua_platform ∷ row.purpose ∷ row.x_purpose ∷ row.x_moz ∷ row.country ∷ []

abbrev pub IsClean : Option String → Type 0
IsClean none = Unit {0}
IsClean (some value) = includes value nul_text ≡ false

sanitize_for_postgres_text-IsClean :
    (value : Option String) → IsClean (sanitize_for_postgres_text value)
sanitize_for_postgres_text-IsClean none = tt
sanitize_for_postgres_text-IsClean (some value) = elim (Bool-cases (includes value nul_text)) [
  | inl e ↦ rw e tt
  | inr e ↦ rw (e) e
]

map-IsClean : (values : List (Option String)) → All IsClean (map sanitize_for_postgres_text values)
map-IsClean [] = tt
map-IsClean (value ∷ values) = (sanitize_for_postgres_text-IsClean value, map-IsClean values)

-- Whatever an event holds, none of the columns of its row that come from the request's headers holds the
-- character U+0000, which the database refuses.
pub to_new_event_row-IsClean :
    (date_parse : String → Option ℕ) (logged : LoggedEvent)
    → All IsClean (request_texts (to_new_event_row date_parse logged))
unfolding to_new_event_row
to_new_event_row-IsClean date_parse logged =
    let e = logged.event in
    map-IsClean (
      e.visitor_hash ∷ e.http_method ∷ e.user_agent ∷ e.referer ∷ e.accept ∷ e.accept_language
      ∷ e.sec_fetch_site ∷ e.sec_fetch_mode ∷ e.sec_fetch_dest ∷ e.sec_fetch_user ∷ e.sec_purpose
      ∷ e.sec_ch_ua ∷ e.sec_ch_ua_mobile ∷ e.sec_ch_ua_platform ∷ e.purpose ∷ e.x_purpose ∷ e.x_moz
      ∷ e.country ∷ [])
