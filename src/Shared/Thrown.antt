-- ===== src/Shared/Thrown.antt =====
-- What JavaScript code throws and catches: an `Error` with the fields that the worker reads from
-- it, or any other value, of which only `String(value)` is read. `code` is the field where it is a
-- string, `status` is `$metadata.httpStatusCode` where it is a number, and `throttling` says
-- whether `$retryable.throttling` is `true`. A chain of causes is finite here.
use Prim.Native.Nat.{ℕ}
use Prim.Native.String.{String}
use mathlib.Core.Bool.{Bool, false}
use mathlib.Core.Option.{Option, none}

pub data Thrown : Type 0 where
  error :
      (name message : String) (code : Option String) (throttling : Bool) (status : Option ℕ)
      → Thrown
      → Thrown
  other : String → Thrown

-- The value `undefined`, as `String` prints it.
abbrev pub undefined : Thrown
undefined = other "undefined"

-- `new Error(message)`.
abbrev pub new_error : String → Thrown
new_error message = error "Error" message none false none undefined

-- `error instanceof Error ? error.message : String(error)`
abbrev pub error_message : Thrown → String
error_message (error name message code throttling status cause) = message
error_message (other text) = text

-- `error instanceof Error ? error : new Error(errorMessage(error))`
abbrev pub to_error : Thrown → Thrown
to_error (error name message code throttling status cause) =
    error name message code throttling status cause
to_error (other text) = new_error text

-- A number of a configuration: a natural one, or any other (negative, fractional, not a number).
pub data JsNumber : Type 0 where
  nat : ℕ → JsNumber
  not_nat : JsNumber
