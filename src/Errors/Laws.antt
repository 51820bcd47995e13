-- ===== src/Errors/Laws.antt =====
-- How wrapping, statuses and retries go together.
use flyto_warroom.Prelude.{
  ◌≡◌, ◌↔◌, ◌⊎◌, inl, inr, refl, ap, String, true, false, [], Option, none, some, arith, str_eq,
  eq_iff, if_elim, Option-cases, not, ◌&&◌,
}
use mathlib.Core.Path.{subst}
use flyto_warroom.Errors.{
  Fault, fresh, caused, annotated, plain, TypedError, as_fault, as_error, default_retryable,
  envelope, wrap_found, wrap, is_retryable, status_of_code, status_of, http_status, write,
  or_internal,
}

-- Every envelope of the chain has the `Retryable` of its code, as those of `New` and `Wrap` have: no caller has set it
-- otherwise.
unfoldable pub IsUnforced : Fault → Type 0
unfolding default_retryable
IsUnforced (fresh e) = e.retryable ≡ default_retryable e.code
IsUnforced (caused e f) = (e.retryable ≡ default_retryable e.code) × IsUnforced f
IsUnforced (annotated text f) = IsUnforced f
IsUnforced (plain text) = Unit

retried_code :
    (code : String)
    → default_retryable code ≡ true
    → (code ≡ "TRANSIENT") ⊎ (code ≡ "UPSTREAM_UNAVAILABLE")
unfolding default_retryable
retried_code code h = ground (arith, h, eq_iff code "TRANSIENT", eq_iff code "UPSTREAM_UNAVAILABLE")

retried_status :
    (code : String)
    → (code ≡ "TRANSIENT") ⊎ (code ≡ "UPSTREAM_UNAVAILABLE")
    → (status_of_code code ≡ 502) ⊎ (status_of_code code ≡ 503)
unfolding status_of_code
retried_status code (inl e) = rw e (inr refl)
retried_status code (inr e) = rw e (inl refl)

status_retried :
    (code : String)
    → (status_of_code code ≡ 502) ⊎ (status_of_code code ≡ 503)
    → default_retryable code ≡ true
unfolding status_of_code default_retryable
status_retried code h = ground (arith, h)

code_retried :
    (code : String)
    → (default_retryable code ≡ true) ↔ ((status_of_code code ≡ 502) ⊎ (status_of_code code ≡ 503))
code_retried code = ((λ h. retried_status code (retried_code code h)), status_retried code)

-- Where every `Retryable` of the chain is the default of its code (no caller has overridden one), a retry is advised
-- just where the status is 502 or 503.
pub retried_iff :
    (f : Fault)
    → IsUnforced f
    → (is_retryable f ≡ true) ↔ ((http_status f ≡ 502) ⊎ (http_status f ≡ 503))
unfolding is_retryable http_status as_error status_of IsUnforced
retried_iff (fresh e) h = rw h (code_retried e.code)
retried_iff (caused e f) (h, k) = rw h (code_retried e.code)
retried_iff (annotated text f) h = retried_iff f h
retried_iff (plain text) h = ground arith

-- The error that `errors.As` finds is itself in its chain.
as_error_again :
    (f : Fault) (e : TypedError)
    → as_error f ≡ some e
    → as_error (as_fault e.envelope e.cause) ≡ some e
unfolding as_error
as_error_again (fresh x) e h = ground (arith, h)
as_error_again (caused x f) e h = ground (arith, h)
as_error_again (annotated text f) e h = as_error_again f e h
as_error_again (plain text) e h = absurd (cc h)

-- The error that is there.
abbrev the : TypedError → Option TypedError → TypedError
the e none = e
the e (some f) = f

found-IsUnforced :
    (f : Fault) (e : TypedError)
    → as_error f ≡ some e
    → IsUnforced f
    → IsUnforced (as_fault e.envelope e.cause)
unfolding as_error IsUnforced
found-IsUnforced (fresh x) e h u =
    subst (λ y. IsUnforced (as_fault y.envelope y.cause)) (ap (the e) h) u
found-IsUnforced (caused x f) e h u =
    subst (λ y. IsUnforced (as_fault y.envelope y.cause)) (ap (the e) h) u
found-IsUnforced (annotated text f) e h u = found-IsUnforced f e h u
found-IsUnforced (plain text) e h u = absurd (cc h)

-- Wrapping sets nothing by hand.
pub wrap-IsUnforced :
    (f : Fault) (code message : String)
    → IsUnforced f
    → IsUnforced (as_fault (wrap (some f) code message).envelope (wrap (some f) code message).cause)
unfolding wrap wrap_found envelope IsUnforced
wrap-IsUnforced f code message u = elim (Option-cases (as_error f)) [
  | inl e ↦ rw e (refl, u)
  | inr (x, e) ↦ rw e (
      if_elim (λ (t : TypedError). IsUnforced (as_fault t.envelope t.cause))
        (not (str_eq code "") && not (str_eq code x.envelope.code)) (λ q. (refl, u))
        (λ q. found-IsUnforced f x e u))
]

-- An error that is wrapped with no code, or with the code that it has, is answered and retried as it was.
pub wrap_again :
    (f : Fault) (e : TypedError) (code message : String)
    → as_error f ≡ some e
    → (code ≡ "") ⊎ (code ≡ e.envelope.code)
    → wrap (some f) code message ≡ e
unfolding wrap wrap_found
wrap_again f e code message found same =
    rw found (ground (arith, same, eq_iff code "", eq_iff code e.envelope.code))

wrap-plain :
    (f : Fault) (code message : String)
    → as_error f ≡ none
    → wrap (some f) code message ≡ record { envelope = envelope code message; cause = some f }
unfolding wrap wrap_found
wrap-plain f code message e = rw e refl

-- A response has the status of the error and the identifier of the request. An `Error` of the chain gives it its
-- whole envelope; without one the envelope is the same for every error: INTERNAL, internal error, not retryable and
-- without details.
pub write_answers :
    (f : Fault) (request_id : String)
    → ((write f request_id).status ≡ http_status f)
      × ((write f request_id).request_id ≡ request_id)
      × (as_error f ≡ none
          → (write f request_id).error ≡ record {
            code = "INTERNAL";
            message = "internal error";
            retryable = false;
            details = [];
          })
      × ((e : TypedError) → as_error f ≡ some e → (write f request_id).error ≡ e.envelope)
unfolding write http_status status_of or_internal envelope as_error status_of_code default_retryable
write_answers f request_id = elim (Option-cases (as_error f)) [
  | inl e ↦
      rw (e, or_internal, wrap-plain f "INTERNAL" "internal error" e)
        (refl, refl, (λ q. refl), (λ x q. absurd (cc q)))
  | inr (x, e) ↦
      let again = as_error_again f x e in
      rw e (ap status_of again, refl, (λ q. absurd (cc q)), (λ y q. ap (λ o. (the x o).envelope) q))
]
