-- ===== src/Core/EventLog/Json.antt =====
-- `JSON.stringify` on an object whose fields hold texts, natural numbers, Booleans and null.
pub mod Plain
use Prim.Native.Char.{Char, code}
use Prim.Native.String
use posta.Shared.{
  ℕ, zero, suc, ◌+◌, ◌-◌, ◌*◌, ◌/◌, ◌%◌, String, Bool, true, false, List, [], ◌∷◌, Option, none,
  some, if◌then◌else◌, ltb, ◌==◌,
}
use posta.Shared.Text.{concat, show, digit}

pub data JsonValue : Type 0 where
  string : String → JsonValue
  number : ℕ → JsonValue
  boolean : Bool → JsonValue
  null : JsonValue

abbrev pub text_or_null : Option String → JsonValue
text_or_null none = null
text_or_null (some s) = string s

-- `\u00hh`
abbrev pub unicode_escape : ℕ → String
unicode_escape n = concat ("\\u00" ∷ digit (n / 16) ∷ digit (n % 16) ∷ [])

abbrev pub short_escapes : List (ℕ × String)
short_escapes =
    (34, "\\\"")
    ∷ (92, "\\\\")
    ∷ (8, "\\b")
    ∷ (9, "\\t")
    ∷ (10, "\\n")
    ∷ (12, "\\f")
    ∷ (13, "\\r")
    ∷ []

-- The escape that the table has for a character, or another text.
abbrev pub short_or : List (ℕ × String) → ℕ → String → String
short_or [] n other = other
short_or ((k, escaped) ∷ rest) n other = if n == k then escaped else short_or rest n other

abbrev pub escape_char : Char → String
escape_char c =
    short_or short_escapes (code c)
      (if ltb (code c) 32 then unicode_escape (code c) else String.◌∷◌ c String.[])

unfoldable pub escape : String → String
escape String.[] = ""
escape (String.◌∷◌ c s) = String.◌++◌ (escape_char c) (escape s)

unfoldable pub quote : String → String
quote s = concat ("\"" ∷ escape s ∷ "\"" ∷ [])

unfoldable pub stringify_value : JsonValue → String
stringify_value (string s) = quote s
stringify_value (number n) = show n
stringify_value (boolean true) = "true"
stringify_value (boolean false) = "false"
stringify_value null = "null"

unfoldable pub stringify_field : String × JsonValue → String
stringify_field (name, value) = concat (quote name ∷ ":" ∷ stringify_value value ∷ [])

-- The fields after the first, each after its comma.
unfoldable pub stringify_rest : List (String × JsonValue) → String
stringify_rest [] = ""
stringify_rest (field ∷ fields) = concat ("," ∷ stringify_field field ∷ stringify_rest fields ∷ [])

unfoldable pub stringify : List (String × JsonValue) → String
stringify [] = "{}"
stringify (field ∷ fields) = concat ("{" ∷ stringify_field field ∷ stringify_rest fields ∷ "}" ∷ [])
