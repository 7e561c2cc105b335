-- ===== src/Batch/Samples.antt =====
-- Sample events and errors.
use posta.Shared.{Bool, false, none, some, str_eq}
use posta.Shared.Thrown.{Thrown, error, undefined}
use posta.Contracts.Capture.{CaptureEvent}
pub use posta.Contracts.Samples.{event}

abbrev pub is_bad : CaptureEvent → Bool
is_bad e = str_eq e.event_id "bad"

-- A driver's error that wraps the database's, as Drizzle throws it.
abbrev pub row_error : Thrown
row_error =
    error "DrizzleQueryError" "Failed query" none false none
      (error "DatabaseError" "invalid byte sequence" (some "22P05") false none undefined)

abbrev pub reset_error : Thrown
reset_error = error "Error" "read ECONNRESET" (some "ECONNRESET") false none undefined

abbrev pub denied_error : Thrown
denied_error = error "AccessDenied" "Access Denied" none false (some 403) undefined
