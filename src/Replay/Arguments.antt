-- ===== src/Replay/Arguments.antt =====
-- apps/worker/src/cli/replay.ts: parseReplayArgs. `parseArgs` of Node.js is a parameter, as is the parsing of a date
-- into milliseconds. A number of digits is read exactly, where the source reads a double.
pub mod Valid
pub mod Totality
mod Tests
use Prim.Native.Char.{code}
use Prim.Native.String
use posta.Shared.{
  ℕ, ◌+◌, ◌-◌, ◌*◌, String, Bool, true, false, not, ◌&&◌, List, [], ◌∷◌, Option, none, some,
  if◌then◌else◌, ltb, leb, ◌==◌, Outcome, ok, throw, bind_outcome, ◌||◌, str_eq,
}
use posta.Shared.Text.{concat, show}
use posta.Shared.Chars.{every}
use posta.Shared.Thrown.{Thrown, error, undefined, error_message}

abbrev pub max_batch_size : ℕ
max_batch_size = 500

-- What `parseArgs` finds.
pub record ArgValues : Type 0 where
  pub from : Option String
  pub to : Option String
  pub tenant : Option String
  pub dry_run : Bool
  pub batch_size : Option String

pub record ReplayCliOptions : Type 0 where
  pub from : String
  pub to : String
  pub tenant_id : Option String
  pub dry_run : Bool
  pub batch_size : Option ℕ

-- `new ReplayArgsError(…)`
abbrev pub replay_args_error : List String → Thrown
replay_args_error texts =
    error "ReplayArgsError" (concat ("posta replay: " ∷ texts)) none false none undefined

-- `date.getTime()`, or `none` for `NaN`.
abbrev pub required_date : Option ℕ → String → String → Outcome (String × ℕ)
required_date none raw flag =
    throw (replay_args_error (flag ∷ " \"" ∷ raw ∷ "\" is not a valid ISO-8601 date" ∷ []))
required_date (some ms) raw flag = ok (raw, ms)

pub parse_required_date : (String → Option ℕ) → Option String → String → Outcome (String × ℕ)
parse_required_date date_parse none flag = throw (replay_args_error (flag ∷ " is required" ∷ []))
parse_required_date date_parse (some raw) flag =
    if str_eq raw ""
    then throw (replay_args_error (flag ∷ " is required" ∷ []))
    else required_date (date_parse raw) raw flag

abbrev pub is_digit : ℕ → Bool
is_digit n = leb 48 n && leb n 57

-- `/^\\d+$/`
pub is_fully_numeric : String → Bool
is_fully_numeric s = not (str_eq s "") && every is_digit s

-- `Number.parseInt(s, 10)`, for a text of digits.
pub parse_int : ℕ → String → ℕ
parse_int acc String.[] = acc
parse_int acc (String.◌∷◌ c s) = parse_int (acc * 10 + (code c - 48)) s

abbrev pub bounded_batch_size : ℕ → String → Outcome (Option ℕ)
bounded_batch_size parsed raw =
    if ltb max_batch_size parsed
    then throw (
        replay_args_error (
          "--batch-size \""
          ∷ raw
          ∷ "\" exceeds the maximum of "
          ∷ show max_batch_size
          ∷ " (matches EVENT_BATCH_SIZE's own production ceiling — apps/worker/src/env.ts)"
          ∷ []))
    else ok (some parsed)

pub parse_batch_size : Option String → Outcome (Option ℕ)
parse_batch_size none = ok none
parse_batch_size (some raw) =
    if not (is_fully_numeric raw) || leb (parse_int 0 raw) 0
    then throw (replay_args_error ("--batch-size \"" ∷ raw ∷ "\" must be a positive integer" ∷ []))
    else bounded_batch_size (parse_int 0 raw) raw

abbrev pub ordered_dates : String × ℕ → String × ℕ → Outcome (Unit {0})
ordered_dates (first, a) (last, b) =
    if ltb b a
    then throw (
        replay_args_error (
          "--from (\"" ∷ first ∷ "\") is after --to (\"" ∷ last ∷ "\") — check for swapped flags"
          ∷ []))
    else ok tt

abbrev pub values_or_error : Outcome ArgValues → Outcome ArgValues
values_or_error (ok values) = ok values
values_or_error (throw cause) =
    throw (replay_args_error ("failed to parse arguments: " ∷ error_message cause ∷ []))
values_or_error Outcome.stuck = Outcome.stuck

module _ (date_parse : String → Option ℕ) where
  pub check_values : ArgValues → Outcome ReplayCliOptions
  check_values values = bind_outcome (parse_required_date date_parse values.from "--from") λ first.
      bind_outcome (parse_required_date date_parse values.to "--to") λ last.
        bind_outcome (ordered_dates first last) λ _.
          bind_outcome (parse_batch_size values.batch_size) λ size. ok (record {
            from = first.0;
            to = last.0;
            tenant_id = values.tenant;
            dry_run = values.dry_run;
            batch_size = size;
          })

  pub parse_replay_args : (List String → Outcome ArgValues) → List String → Outcome ReplayCliOptions
  parse_replay_args parse_args argv = bind_outcome (values_or_error (parse_args argv)) check_values
