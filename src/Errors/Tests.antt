-- ===== src/Errors/Tests.antt =====
-- A missing project, wrapped twice.
use flyto_warroom.Prelude.{◌≡◌, ◌↔◌, ◌⊎◌, inl, refl, true, false, none, some, []}
use flyto_warroom.Errors.{
  Envelope, Fault, fresh, annotated, plain, TypedError, as_fault, as_error, envelope,
  default_retryable, wrap, wrap_found, is_retryable, http_status, write,
}
use flyto_warroom.Errors.Laws.{IsUnforced, retried_iff, wrap-IsUnforced, wrap_again, write_answers}

abbrev missing : Envelope
missing = record { code = "NOT_FOUND"; message = "no project"; retryable = false; details = [] }

abbrev outage : Envelope
outage = record { code = "TRANSIENT"; message = "database"; retryable = true; details = [] }

abbrev reported : Fault
reported = annotated "load project" (fresh missing)

-- Another code is not kept, contrary to the doc of `Wrap`: what was retryable is not.
recoded : (wrap (some (fresh outage)) "INTERNAL" "internal error").envelope.retryable ≡ false
unfolding wrap wrap_found as_error envelope default_retryable
recoded = refl

retried_iff_example :
    (is_retryable reported ≡ true) ↔ ((http_status reported ≡ 502) ⊎ (http_status reported ≡ 503))
unfolding IsUnforced default_retryable
retried_iff_example = retried_iff reported refl

wrap-IsUnforced_example : IsUnforced (
    as_fault
      (wrap (some reported) "INTERNAL" "internal error").envelope
      (wrap (some reported) "INTERNAL" "internal error").cause)
unfolding IsUnforced default_retryable
wrap-IsUnforced_example = wrap-IsUnforced reported "INTERNAL" "internal error" refl

wrap_again_holds : wrap (some reported) "" "again" ≡ record { envelope = missing; cause = none }
unfolding as_error
wrap_again_holds =
    wrap_again reported (record { envelope = missing; cause = none }) "" "again" refl (inl refl)

write_answers_example :
    ((write (plain "password=1") "r-1").status ≡ http_status (plain "password=1"))
    × ((write (plain "password=1") "r-1").request_id ≡ "r-1")
    × (as_error (plain "password=1") ≡ none
        → (write (plain "password=1") "r-1").error ≡ record {
          code = "INTERNAL";
          message = "internal error";
          retryable = false;
          details = [];
        })
    × ((e : TypedError)
        → as_error (plain "password=1") ≡ some e
        → (write (plain "password=1") "r-1").error ≡ e.envelope)
write_answers_example = write_answers (plain "password=1") "r-1"
