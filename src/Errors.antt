-- ===== src/Errors.antt =====
-- errx/errx.go: the typed error envelope. A code is its text; the values of the details are texts.
pub mod Laws
mod Tests
use flyto_warroom.Prelude.{
  ℕ, String, Bool, true, false, not, ◌&&◌, ◌||◌, Option, none, some, List, [], ◌∷◌, if◌then◌else◌,
  str_eq,
}
use flyto_warroom.Prelude.Dict.{Dict, insert}

-- The fields of an `Error` that are serialised.
pub record Envelope : Type 0 where
  pub code : String
  pub message : String
  pub retryable : Bool
  pub details : Dict String

-- An error value and what it wraps: an `Error`, with a cause or without, an error of `fmt.Errorf` with `%w`, and
-- any other error.
pub data Fault : Type 0 where
  fresh : Envelope → Fault
  caused : Envelope → Fault → Fault
  annotated : (text : String) → Fault → Fault
  plain : (text : String) → Fault

-- `*Error`
pub record TypedError : Type 0 where
  pub envelope : Envelope
  pub cause : Option Fault

abbrev pub as_fault : Envelope → Option Fault → Fault
as_fault e none = fresh e
as_fault e (some f) = caused e f

-- `errors.As(err, &e)`: the first `Error` of the chain.
unfoldable pub as_error : Fault → Option TypedError
as_error (fresh e) = some (record { envelope = e; cause = none })
as_error (caused e f) = some (record { envelope = e; cause = some f })
as_error (annotated text f) = as_error f
as_error (plain text) = none

unfoldable pub default_retryable : (code : String) → Bool
default_retryable code = str_eq code "TRANSIENT" || str_eq code "UPSTREAM_UNAVAILABLE"

unfoldable pub envelope : (code message : String) → Envelope
unfolding default_retryable
envelope code message = record {
  code = code;
  message = message;
  retryable = default_retryable code;
  details = [];
}

-- `New`
unfoldable pub new_error : (code message : String) → TypedError
unfolding envelope
new_error code message = record { envelope = envelope code message; cause = none }

-- The part of `Wrap` after `errors.As`.
unfoldable pub wrap_found : Option TypedError → Fault → (code message : String) → TypedError
unfolding envelope
wrap_found none err code message = record { envelope = envelope code message; cause = some err }
wrap_found (some e) err code message =
    if not (str_eq code "") && not (str_eq code e.envelope.code)
    then record { envelope = envelope code message; cause = some err }
    else e

unfoldable pub wrap : Option Fault → (code message : String) → TypedError
unfolding new_error wrap_found as_error
wrap none code message = new_error code message
wrap (some err) code message = wrap_found (as_error err) err code message

unfoldable pub with_detail : Option TypedError → (key value : String) → Option TypedError
unfolding insert
with_detail none key value = none
with_detail (some e) key value =
    let x = e.envelope in
    some (record e { envelope = record x { details = insert key value x.details } })

abbrev pub retryable_of : Option TypedError → Bool
retryable_of none = false
retryable_of (some e) = e.envelope.retryable

unfoldable pub is_retryable : Fault → Bool
unfolding as_error
is_retryable err = retryable_of (as_error err)

unfoldable pub status_of_code : (code : String) → ℕ
status_of_code code =
    if str_eq code "BAD_REQUEST"
    then 400
    else if str_eq code "UNPROCESSABLE"
    then 422
    else if str_eq code "UNAUTHORIZED"
    then 401
    else if str_eq code "FORBIDDEN"
    then 403
    else if str_eq code "NOT_FOUND"
    then 404
    else if str_eq code "CONFLICT"
    then 409
    else if str_eq code "TOO_LARGE"
    then 413
    else if str_eq code "UNSUPPORTED_MEDIA_TYPE"
    then 415
    else if str_eq code "UPSTREAM_UNAVAILABLE"
    then 502
    else if str_eq code "TRANSIENT"
    then 503
    else 500

unfoldable pub status_of : Option TypedError → ℕ
unfolding status_of_code
status_of none = 500
status_of (some e) = status_of_code e.envelope.code

unfoldable pub http_status : Fault → ℕ
unfolding status_of as_error
http_status err = status_of (as_error err)

-- What `Write` sends.
pub record Response : Type 0 where
  pub status : ℕ
  pub error : Envelope
  pub request_id : String

unfoldable pub or_internal : Option TypedError → Fault → TypedError
unfolding wrap
or_internal none err = wrap (some err) "INTERNAL" "internal error"
or_internal (some e) err = e

unfoldable pub write : Fault → (request_id : String) → Response
unfolding as_error or_internal http_status
write err request_id =
    let e = or_internal (as_error err) err in
    record {
      status = http_status (as_fault e.envelope e.cause);
      error = e.envelope;
      request_id = request_id;
    }
