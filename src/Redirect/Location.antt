-- ===== src/Redirect/Location.antt =====
-- apps/api/src/redirect/redirect-response.ts: the value of the `Location` header. A text is the list of its code
-- points here, as `for…of` reads them: a half of a surrogate pair that stands alone is one of them.
pub mod Safety
mod Tests
use Prim.Native.Char.{code}
use Prim.Native.String
use posta.Shared.{
  ℕ, ◌+◌, ◌/◌, ◌%◌, String, Bool, true, false, ◌&&◌, ◌||◌, List, [], ◌∷◌, ◌++◌, Option, none, some,
  if◌then◌else◌, leb, ltb, ◌==◌,
}

abbrev pub CodePoints : Type 0
CodePoints = List ℕ

-- The code points of a text that has no such half.
abbrev pub code_points : String → CodePoints
code_points String.[] = []
code_points (String.◌∷◌ c s) = code c ∷ code_points s

pub is_header_safe_code_point : ℕ → Bool
is_header_safe_code_point n = n == 9 || (leb 32 n && leb n 126) || (leb 128 n && leb n 255)

-- `/^[\\t\\x20-\\x7e\\x80-\\xff]*$/`
pub is_header_safe : CodePoints → Bool
is_header_safe [] = true
is_header_safe (n ∷ rest) = is_header_safe_code_point n && is_header_safe rest

-- `0` to `9` and `A` to `F`
pub upper_digit : ℕ → ℕ
upper_digit n = if ltb n 10 then 48 + n else 55 + n

-- `%XX`
pub percent_bytes : List ℕ → CodePoints
percent_bytes [] = []
percent_bytes (n ∷ bytes) =
    37 ∷ upper_digit (n / 16 % 16) ∷ upper_digit (n % 16) ∷ percent_bytes bytes

-- The bytes of a code point in UTF-8.
pub utf8 : ℕ → List ℕ
utf8 n =
    if ltb n 128
    then n ∷ []
    else if ltb n 2048
    then (192 + n / 64) ∷ (128 + n % 64) ∷ []
    else if ltb n 65536
    then (224 + n / 4096) ∷ (128 + n / 64 % 64) ∷ (128 + n % 64) ∷ []
    else (240 + n / 262144) ∷ (128 + n / 4096 % 64) ∷ (128 + n / 64 % 64) ∷ (128 + n % 64) ∷ []

abbrev pub is_surrogate : ℕ → Bool
is_surrogate n = leb 55296 n && leb n 57343

-- `encodeURIComponent` of a character that no header may hold: it throws for half a surrogate pair.
pub encode_char : ℕ → Option CodePoints
encode_char n = if is_surrogate n then none else some (percent_bytes (utf8 n))

abbrev pub join_parts : Option CodePoints → Option CodePoints → Option CodePoints
join_parts none rest = none
join_parts (some part) none = none
join_parts (some part) (some rest) = some (part ++ rest)

pub encode_chars : CodePoints → Option CodePoints
encode_chars [] = some []
encode_chars (n ∷ chars) =
    let rest = encode_chars chars in
    if is_header_safe_code_point n
    then join_parts (some (n ∷ [])) rest
    else join_parts (encode_char n) rest

pub encode_destination_for_header : CodePoints → Option CodePoints
encode_destination_for_header destination =
    if is_header_safe destination then some destination else encode_chars destination
