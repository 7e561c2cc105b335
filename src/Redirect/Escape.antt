-- ===== src/Redirect/Escape.antt =====
-- apps/api/src/redirect/escape-html.ts: text that a page shows. Lengths are in UTF-16 units.
pub mod Safety
mod Tests
use Prim.Native.Char.{Char, code}
use Prim.Native.String
use posta.Shared.Text.{units, utf16_length}
use posta.Shared.{ℕ, ◌+◌, String, if◌then◌else◌, leb, ltb, ◌==◌}

abbrev pub max_input_length : ℕ
max_input_length = 128

abbrev pub max_escaped_html_length : ℕ
max_escaped_html_length = 384

-- The loop of `truncateAtCodePointBoundary`, after `length` units.
pub truncate_from : ℕ → ℕ → String → String
truncate_from max_length length String.[] = ""
truncate_from max_length length (String.◌∷◌ c s) =
    let rest = truncate_from max_length (length + units c) s in
    if ltb max_length (length + units c) then "" else String.◌∷◌ c rest

pub truncate_at_code_point_boundary : String → ℕ → String
truncate_at_code_point_boundary s max_length =
    if leb (utf16_length s) max_length then s else truncate_from max_length 0 s

-- `ESCAPE_ENTITIES[char] ?? char`
pub escape_entity : Char → String
escape_entity c =
    if code c == 38
    then "&amp;"
    else if code c == 60
    then "&lt;"
    else if code c == 62
    then "&gt;"
    else if code c == 34
    then "&quot;"
    else if code c == 39
    then "&#x27;"
    else if code c == 47
    then "&#x2F;"
    else String.◌∷◌ c ""

-- `replace(ESCAPABLE_CHARACTERS, …)`
pub escape_chars : String → String
escape_chars String.[] = ""
escape_chars (String.◌∷◌ c s) = String.◌++◌ (escape_entity c) (escape_chars s)

pub escape_html : String → String
escape_html s =
    truncate_at_code_point_boundary
      (escape_chars (truncate_at_code_point_boundary s max_input_length)) max_escaped_html_length
