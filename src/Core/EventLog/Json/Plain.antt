-- ===== src/Core/EventLog/Json/Plain.antt =====
-- No text that `JSON.stringify` writes has a control character, nor one of the two separators of Unicode unless a text
-- that it writes has.
use Prim.Native.Char.{Char, char, code}
use mathlib.Core.Bool.{and-eq-true_iff}
use text.Mathlib.TextLemmas.{cons≢nil}
use Prim.Native.String
use Prim.Native.String.append
use posta.Shared.{
  str_eq, str_eq_iff, sym, ◌∙◌, Bool-cases, inl, inr, ℕ, zero, suc, ◌/◌, ◌%◌, ◌≡◌, refl, String,
  Bool, true, false, not, ◌&&◌, List, [], ◌∷◌, if◌then◌else◌, leb, ltb, ◌==◌, all, arith,
}
use posta.Shared.Text.{show, digit, digits, digit_texts}
use posta.Shared.Chars.{every, every-append, every-concat, every-nth, every-if}
use posta.Core.EventLog.Json.{
  JsonValue, string, number, boolean, null, escape, escape_char, short_escapes, short_or,
  unicode_escape, quote, stringify, stringify_value, stringify_field, stringify_rest,
}

abbrev pub no_separator : ℕ → Bool
no_separator n = not (n == 8232) && not (n == 8233)

abbrev pub in_line : ℕ → Bool
in_line n = leb 32 n && no_separator n

abbrev pub unbroken : String → Bool
unbroken s = every no_separator s

abbrev pub unbroken_value : JsonValue → Bool
unbroken_value (string s) = unbroken s
unbroken_value _ = true

-- No field has a separator in its name or in its text.
abbrev pub unbroken_fields : List (String × JsonValue) → Bool
unbroken_fields [] = true
unbroken_fields ((name, value) ∷ fields) =
    unbroken name && unbroken_value value && unbroken_fields fields

-- No control characters and no separators.
abbrev pub plain : String → Bool
plain s = every in_line s

plain-digit : (n : ℕ) → plain (digit n) ≡ true
plain-digit n = every-nth in_line digit_texts n refl

plain-digits : (fuel n : ℕ) (rest : String) → plain rest ≡ true → plain (digits fuel n rest) ≡ true
unfolding digits
plain-digits zero n rest h = h
plain-digits (suc fuel) n rest h =
    let h' = every-append in_line (digit (n % 10)) rest (plain-digit (n % 10)) h in
    every-if in_line (ltb n 10) (String.◌++◌ (digit (n % 10)) rest)
      (digits fuel (n / 10) (String.◌++◌ (digit (n % 10)) rest)) h'
      (plain-digits fuel (n / 10) (String.◌++◌ (digit (n % 10)) rest) h')

plain-control :
    (c : Char) (b : Bool)
    → no_separator (code c) ≡ true
    → ltb (code c) 32 ≡ b
    → plain (if b then unicode_escape (code c) else String.◌∷◌ c String.[]) ≡ true
plain-control c true k h =
    every-concat in_line ("\\u00" ∷ digit (code c / 16) ∷ digit (code c % 16) ∷ [])
      (rw (plain-digit (code c / 16), plain-digit (code c % 16)) refl)
plain-control c false k h = let e : leb 32 (code c) ≡ true = ground arith in rw (e, k) refl

plain-short_or :
    (table : List (ℕ × String)) (n : ℕ) (other : String)
    → all (λ entry. plain entry.1) table ≡ true
    → plain other ≡ true
    → plain (short_or table n other) ≡ true
plain-short_or [] n other h k = k
plain-short_or ((m, escaped) ∷ rest) n other h k =
    every-if in_line (n == m) escaped (short_or rest n other) (ground arith)
      (plain-short_or rest n other (ground arith) k)

plain-escape_char : (c : Char) → no_separator (code c) ≡ true → plain (escape_char c) ≡ true
plain-escape_char c k =
    plain-short_or short_escapes (code c) _ refl (plain-control c (ltb (code c) 32) k refl)

plain-escape : (s : String) → unbroken s ≡ true → plain (escape s) ≡ true
unfolding escape
plain-escape String.[] h = refl
plain-escape (String.◌∷◌ c s) h =
    let k = (and-eq-true_iff _ _).0 h in
    every-append in_line (escape_char c) (escape s) (plain-escape_char c k.0) (plain-escape s k.1)

plain-quote : (s : String) → unbroken s ≡ true → plain (quote s) ≡ true
unfolding quote
plain-quote s h = every-concat in_line ("\"" ∷ escape s ∷ "\"" ∷ []) (rw (plain-escape s h) refl)

plain-stringify_value : (v : JsonValue) → unbroken_value v ≡ true → plain (stringify_value v) ≡ true
unfolding stringify_value show
plain-stringify_value (string s) h = plain-quote s h
plain-stringify_value (number n) h = plain-digits (suc n) n "" refl
plain-stringify_value (boolean true) h = refl
plain-stringify_value (boolean false) h = refl
plain-stringify_value null h = refl

plain-stringify_field :
    (name : String) (v : JsonValue)
    → unbroken name ≡ true
    → unbroken_value v ≡ true
    → plain (stringify_field (name, v)) ≡ true
unfolding stringify_field
plain-stringify_field name v h k =
    every-concat in_line (quote name ∷ ":" ∷ stringify_value v ∷ [])
      (rw (plain-quote name h, plain-stringify_value v k) refl)

plain-stringify_rest :
    (fs : List (String × JsonValue)) → unbroken_fields fs ≡ true → plain (stringify_rest fs) ≡ true
unfolding stringify_rest
plain-stringify_rest [] h = refl
plain-stringify_rest ((name, v) ∷ fs) h =
    let k = (and-eq-true_iff _ _).0 h in
    let l = (and-eq-true_iff _ _).0 k.0 in
    every-concat in_line ("," ∷ stringify_field (name, v) ∷ stringify_rest fs ∷ [])
      (rw (plain-stringify_field name v l.0 l.1, plain-stringify_rest fs k.1) refl)

pub plain-stringify :
    (fs : List (String × JsonValue)) → unbroken_fields fs ≡ true → plain (stringify fs) ≡ true
unfolding stringify
plain-stringify [] h = refl
plain-stringify ((name, v) ∷ fs) h =
    let k = (and-eq-true_iff _ _).0 h in
    let l = (and-eq-true_iff _ _).0 k.0 in
    every-concat in_line ("{" ∷ stringify_field (name, v) ∷ stringify_rest fs ∷ "}" ∷ [])
      (rw (plain-stringify_field name v l.0 l.1, plain-stringify_rest fs k.1) refl)

pub stringify-not_empty :
    (field : String × JsonValue) (fields : List (String × JsonValue))
    → str_eq (stringify (field ∷ fields)) "" ≡ false
unfolding stringify
stringify-not_empty field fields = elim (Bool-cases (str_eq (stringify (field ∷ fields)) "")) [
  | inl e ↦
      elim (cons≢nil (
        sym (append.cons (char 123 tt) "" _)
        ∙ (str_eq_iff (stringify (field ∷ fields)) "").0 e)) [ ]
  | inr e ↦ e
]
