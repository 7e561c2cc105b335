-- ===== src/Shared/Text.antt =====
-- What the program uses of JavaScript's strings: tests, cuts, `trim`, `toLowerCase` to ASCII, lengths in UTF-16
-- units, `padStart` with zeros and the decimal text of a natural number.
use Prim.Native.Nat.{ℕ, zero, suc, ◌+◌, ◌-◌, ◌/◌, ◌%◌}
use Prim.Native.Char.{Char, code}
use Prim.Native.String.{String, char_at, count}
use Prim.Native.String
use mathlib.Core.Bool.{Bool, true, false, ◌&&◌, ◌||◌}
use mathlib.Core.Option.{Option, none, some}
use mathlib.Core.List.{List, [], ◌∷◌}
use text.Mathlib.Text.{find?}
use posta.Shared.Lists.{any}
use posta.Shared.Tests.{◌==◌, leb, ltb, str_eq, if◌then◌else◌}

abbrev pub is_some {ℓ} : {A : Type ℓ} → Option A → Bool
is_some none = false
is_some (some a) = true

-- `text.includes(part)`
abbrev pub includes : String → String → Bool
includes text part = is_some (find? text part)

abbrev pub lower_char : Char → Char
lower_char c =
    if leb 65 (code c) && leb (code c) 90
    then char_at "abcdefghijklmnopqrstuvwxyz" (code c - 65)
    else if code c == 8490
    then char_at "k" 0
    else c

-- `text.toLowerCase()`, as far as it gives ASCII: the capitals, and the sign of the unit kelvin. Other letters, which
-- have a lower case that is not ASCII, are kept.
abbrev pub to_lower_case : String → String
to_lower_case String.[] = ""
to_lower_case (String.◌∷◌ c s) = String.◌∷◌ (lower_char c) (to_lower_case s)

abbrev pub nth : List String → ℕ → String
nth [] n = ""
nth (s ∷ ss) zero = s
nth (s ∷ ss) (suc n) = nth ss n

abbrev pub digit_texts : List String
digit_texts =
    "0" ∷ "1" ∷ "2" ∷ "3" ∷ "4" ∷ "5" ∷ "6" ∷ "7" ∷ "8" ∷ "9" ∷ "a" ∷ "b" ∷ "c" ∷ "d" ∷ "e" ∷ "f"
    ∷ []

-- A digit, decimal or hexadecimal.
abbrev pub digit : ℕ → String
digit n = nth digit_texts n

-- `String(n)`, with fuel for the number of its digits.
unfoldable pub digits : ℕ → ℕ → String → String
digits zero n rest = rest
digits (suc fuel) n rest =
    let text = String.◌++◌ (digit (n % 10)) rest in
    let longer = digits fuel (n / 10) text in if ltb n 10 then text else longer

unfoldable pub show : ℕ → String
show n = digits (suc n) n ""

unfoldable pub zeros : ℕ → String → String
zeros zero text = text
zeros (suc n) text = String.◌++◌ "0" (zeros n text)

-- `String(value).padStart(length, '0')`
unfoldable pub zero_pad : ℕ → ℕ → String
zero_pad value length = zeros (length - count (show value)) (show value)

-- Texts, one after the other.
abbrev pub concat : List String → String
concat [] = ""
concat (s ∷ ss) = String.◌++◌ s (concat ss)

-- `texts.join(separator)`
abbrev pub join : String → List String → String
join separator [] = ""
join separator (s ∷ []) = s
join separator (s ∷ t ∷ ss) = String.◌++◌ s (String.◌++◌ separator (join separator (t ∷ ss)))

-- `text.slice(0, n)` of an ASCII text.
abbrev pub slice_chars : ℕ → String → String
slice_chars zero s = ""
slice_chars (suc n) String.[] = ""
slice_chars (suc n) (String.◌∷◌ c s) = String.◌∷◌ c (slice_chars n s)

-- `text.startsWith('/') ? text.slice(1) : text`
abbrev pub without_slash : String → String
without_slash String.[] = ""
without_slash (String.◌∷◌ c s) = if code c == 47 then s else String.◌∷◌ c s

-- The characters that `trim` takes off.
abbrev pub is_space : ℕ → Bool
is_space n =
    (leb 9 n && leb n 13)
    || any (λ m. n == m) (32 ∷ 160 ∷ 5760 ∷ 8232 ∷ 8233 ∷ 8239 ∷ 8287 ∷ 12288 ∷ 65279 ∷ [])
    || (leb 8192 n && leb n 8202)

abbrev pub trim_start : String → String
trim_start String.[] = ""
trim_start (String.◌∷◌ c s) =
    let rest = trim_start s in if is_space (code c) then rest else String.◌∷◌ c s

abbrev pub trim_end : String → String
trim_end String.[] = ""
trim_end (String.◌∷◌ c s) =
    let rest = trim_end s in if is_space (code c) && str_eq rest "" then "" else String.◌∷◌ c rest

-- `text.trim()`
abbrev pub trim : String → String
trim s = trim_end (trim_start s)

-- `codePoint.length`: a character outside of the basic plane is two units of JavaScript's strings.
unfoldable pub units : Char → ℕ
units c = if ltb (code c) 65536 then 1 else 2

-- `s.length`
unfoldable pub utf16_length : String → ℕ
utf16_length String.[] = 0
utf16_length (String.◌∷◌ c s) = units c + utf16_length s

-- `text.startsWith(prefix)`
abbrev pub starts_with : (prefix text : String) → Bool
starts_with String.[] s = true
starts_with (String.◌∷◌ c p) String.[] = false
starts_with (String.◌∷◌ c p) (String.◌∷◌ d s) = code c == code d && starts_with p s

abbrev pub before_end : Char → Bool → Option String → Option String
before_end c whole (some rest) = some (String.◌∷◌ c rest)
before_end c true none = some ""
before_end c false none = none

-- `text.endsWith(suffix) ? text.slice(0, -suffix.length) : undefined`, for a suffix that is not empty.
abbrev pub strip_suffix : (suffix text : String) → Option String
strip_suffix suffix String.[] = none
strip_suffix suffix (String.◌∷◌ c s) =
    before_end c (str_eq (String.◌∷◌ c s) suffix) (strip_suffix suffix s)
