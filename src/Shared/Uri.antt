-- ===== src/Shared/Uri.antt =====
-- JavaScript's `decodeURIComponent`: percent escapes of bytes, read as UTF-8, one character at a time.
use Prim.Native.Nat.{ℕ, ◌+◌, ◌-◌, ◌*◌, Ordering, compare}
use Prim.Native.Char.{Char, char, code, IsLt}
use Prim.Native.String
use Prim.Native.String.append
use mathlib.Core.Path.{◌≡◌, refl}
use mathlib.Core.Bool.{Bool, true, false, not, ◌&&◌}
use mathlib.Core.Option.{Option, none, some, map}
use native.Mathlib.Omega.{arith}
use posta.Shared.Tests.{if◌then◌else◌, leb, ltb, ◌==◌}
use posta.Shared.Chars.{every}

-- The three comparisons that `IsScalar` stands for, with the same clauses.
abbrev Above : Ordering → Ordering → Type 0
Above Ordering.lt o = IsLt o
Above Ordering.eq o = ⊥
Above Ordering.gt o = ⊥

abbrev Scalar : Ordering → Ordering → Ordering → Type 0
Scalar Ordering.lt o p = Unit {0}
Scalar Ordering.eq o p = Above o p
Scalar Ordering.gt o p = Above o p

abbrev above? : (o p : Ordering) → Option (Above o p)
above? Ordering.lt Ordering.lt = some tt
above? Ordering.lt Ordering.eq = none
above? Ordering.lt Ordering.gt = none
above? Ordering.eq p = none
above? Ordering.gt p = none

abbrev scalar? : (o p q : Ordering) → Option (Scalar o p q)
scalar? Ordering.lt p q = some tt
scalar? Ordering.eq p q = above? p q
scalar? Ordering.gt p q = above? p q

-- The character of a number, if it has one.
abbrev pub char? : ℕ → Option Char
char? n = map (λ p. char n p) (scalar? (compare n 55296) (compare 57343 n) (compare n 1114112))

abbrev hex_digit : ℕ → Option ℕ
hex_digit n =
    if leb 48 n && leb n 57
    then some (n - 48)
    else if leb 65 n && leb n 70
    then some (n - 55)
    else if leb 97 n && leb n 102
    then some (n - 87)
    else none

-- A character of which bytes have been read: how many are to come, its number so far, and the least number that
-- needs so many bytes.
pub record Sequence : Type 0 where
  pub pending : ℕ
  pub value : ℕ
  pub least : ℕ

-- Between characters, or before or within an escape of a sequence.
pub data Decoder : Type 0 where
  plain : Decoder
  between : Sequence → Decoder
  percent : Sequence → Decoder
  digit : Sequence → (high : ℕ) → Decoder

abbrev start : Sequence
start = record { pending = 0; value = 0; least = 0 }

-- A sequence that is complete is a character; it is not written longer than it needs.
abbrev complete : Sequence → Option (Decoder × String.String)
complete s =
    if s.pending == 0
    then (if ltb s.value s.least then none else map (λ c. (plain, String.◌∷◌ c "")) (char? s.value))
    else some (between s, "")

abbrev first_byte : ℕ → Option (Decoder × String.String)
first_byte b =
    if ltb b 128
    then complete (record { pending = 0; value = b; least = 0 })
    else if ltb b 192
    then none
    else if ltb b 224
    then complete (record { pending = 1; value = b - 192; least = 128 })
    else if ltb b 240
    then complete (record { pending = 2; value = b - 224; least = 2048 })
    else if ltb b 248
    then complete (record { pending = 3; value = b - 240; least = 65536 })
    else none

abbrev next_byte : Sequence → ℕ → Option (Decoder × String.String)
next_byte s b =
    if s.pending == 0
    then first_byte b
    else if leb 128 b && ltb b 192
    then complete (record s { pending = s.pending - 1; value = s.value * 64 + (b - 128) })
    else none

abbrev low_digit : Sequence → ℕ → Option ℕ → Option (Decoder × String.String)
low_digit s high none = none
low_digit s high (some low) = next_byte s (high * 16 + low)

abbrev decode_char : Decoder → Char → Option (Decoder × String.String)
decode_char plain c =
    if code c == 37 then some (percent start, "") else some (plain, String.◌∷◌ c "")
decode_char (between s) c = if code c == 37 then some (percent s, "") else none
decode_char (percent s) c = map (λ high. (digit s high, "")) (hex_digit (code c))
decode_char (digit s high) c = low_digit s high (hex_digit (code c))

abbrev at_end : Decoder → Option String.String
at_end plain = some ""
at_end (between s) = none
at_end (percent s) = none
at_end (digit s high) = none

-- The decoder has read a character, and written a text.
abbrev continue_with :
    (Decoder → Option String.String) → Option (Decoder × String.String) → Option String.String
continue_with rest none = none
continue_with rest (some (d, text)) = map (String.◌++◌ text) (rest d)

abbrev pub decode_from : Decoder → String.String → Option String.String
decode_from d String.[] = at_end d
decode_from d (String.◌∷◌ c s) = continue_with (λ d'. decode_from d' s) (decode_char d c)

-- `decodeURIComponent(text)`, `none` where it throws.
abbrev pub decode_uri_component : String.String → Option String.String
decode_uri_component text = decode_from plain text

abbrev pub not_percent : ℕ → Bool
not_percent n = not (n == 37)

pub decode_uri_component-plain :
    (s : String.String) → every not_percent s ≡ true → decode_uri_component s ≡ some s
decode_uri_component-plain String.[] h = refl
decode_uri_component-plain (String.◌∷◌ c s) h =
    let e : (code c == 37) ≡ false = ground arith in
    rw (e, decode_uri_component-plain s (ground arith), append.cons c "" s, append.nil s) refl
