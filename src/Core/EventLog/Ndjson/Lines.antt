-- ===== src/Core/EventLog/Ndjson/Lines.antt =====
-- One event is one line of the log, unless one of its texts holds a separator of Unicode.
use Prim.Native.Char.{Char, char, code}
use Prim.Native.String
use Prim.Native.String.append
use mathlib.Core.Bool.{and-eq-true_iff}
use text.Mathlib.TextLemmas
use posta.Shared.{◌≡◌, refl, ap, ◌∙◌, String, true, false, List, [], ◌∷◌, map, All, arith}
use posta.Core.EventLog.Json.Plain.{in_line, unbroken_fields, plain, plain-stringify}
use posta.Core.EventLog.Ndjson.{
  LoggedEvent, serialize_event, serialize_batch, split_lines, is_lf, is_cr, is_separator,
  to_log_line,
}

newline-append : (rest : String) → String.◌++◌ "\n" rest ≡ String.◌∷◌ (char 10 tt) rest
newline-append rest =
    append.cons (char 10 tt) String.[] rest ∙ ap (String.◌∷◌ (char 10 tt)) (append.nil rest)

in_line-lf : (c : Char) → in_line (code c) ≡ true → is_lf c ≡ false
in_line-lf c h = ground arith

in_line-cr : (c : Char) → in_line (code c) ≡ true → is_cr c ≡ false
in_line-cr c h = ground arith

in_line-separator : (c : Char) → in_line (code c) ≡ true → is_separator c ≡ false
in_line-separator c h = ground arith

-- No text of the line of an event has the character U+2028 or U+2029.
abbrev pub IsOneLine : LoggedEvent → Type 0
IsOneLine event = unbroken_fields (to_log_line event) ≡ true

split_lines-line :
    (line rest : String)
    → plain line ≡ true
    → split_lines false (String.◌++◌ line (String.◌++◌ "\n" rest)) ≡ line ∷ split_lines false rest
split_lines-line String.[] rest h =
    rw (append.nil (String.◌++◌ "\n" rest), newline-append rest) refl
split_lines-line (String.◌∷◌ c s) rest h =
    let k : (in_line (code c) ≡ true) × (plain s ≡ true) = (and-eq-true_iff _ _).0 h in
    rw
      (
        append.cons c s (String.◌++◌ "\n" rest),
        in_line-lf c k.0,
        in_line-cr c k.0,
        in_line-separator c k.0,
        split_lines-line s rest k.1,
      )
      refl

-- Reading the text of a batch back line by line gives one line for each event, the event's own
-- text, in order, where no text of an event has a separator.
pub split_lines-serialize_batch :
    (events : List LoggedEvent)
    → All IsOneLine events
    → split_lines false (serialize_batch events) ≡ map serialize_event events
unfolding serialize_batch serialize_event
split_lines-serialize_batch [] h = refl
split_lines-serialize_batch (event ∷ events) (h, hs) =
    ap (split_lines false)
      (TextLemmas.append_assoc (serialize_event event) "\n" (serialize_batch events))
    ∙ split_lines-line (serialize_event event) (serialize_batch events)
        (plain-stringify (to_log_line event) h)
    ∙ ap (λ l. serialize_event event ∷ l) (split_lines-serialize_batch events hs)
