-- ===== src/Circuit/Transport.antt =====
-- internal/httpx/circuit.go: an HTTP transport behind a breaker. The wrapped transport is not in
-- the program: its answer is an argument, and it is asked only when the breaker admits the request.
use flyto_warroom.Prelude.{
  ℕ, ◌+◌, ◌≤◌, ◌<◌, ◌≡◌, ◌↔◌, Bool, true, false, Option, none, some, arith, leb, if◌then◌else◌, ◌⊎◌,
  [],
}
use flyto_warroom.Circuit.{
  closed, open_state, Breaker, AllowError, err_open, allow, record_success, record_failure,
  Readings,
}

-- What the base transport returns: an error, or a response, of which the status code is read.
-- (`resp, nil` with a nil response counts as a success, and is `no_response`.)
pub data Answer (E : Type 0) : Type 0 where
  transport_error : E → Answer E
  response : ℕ → Answer E
  no_response : Answer E

pub data RoundTrip (E : Type 0) : Type 0 where
  rejected : AllowError → RoundTrip E
  answered : Answer E → RoundTrip E

module _ {E : Type 0} where
  counts_as_failure : Answer E → Bool
  counts_as_failure (transport_error e) = true
  counts_as_failure (response status) = leb 500 status
  counts_as_failure no_response = false

  record_answer : Readings → Answer E → Breaker → Breaker
  unfolding counts_as_failure
  record_answer t answer b =
      if counts_as_failure answer
      then record_failure t.at_record t.at_trim b
      else record_success t.at_record b

  round_trip_allowed : Readings → Answer E → Breaker × Option AllowError → Breaker × RoundTrip E
  unfolding record_answer
  round_trip_allowed t answer (b, some e) = (b, rejected e)
  round_trip_allowed t answer (b, none) = (record_answer t answer b, answered answer)

  unfoldable pub round_trip : Readings → Answer E → Breaker → Breaker × RoundTrip E
  unfolding round_trip_allowed
  round_trip t answer b = round_trip_allowed t answer (allow t.at_allow b)

  -- The answer says that the upstream failed: an error, or a status of 500 and above.
  abbrev pub UpstreamFailed : Answer E → Type 0
  UpstreamFailed (transport_error e) = Unit {0}
  UpstreamFailed (response status) = 500 ≤ status
  UpstreamFailed no_response = ⊥

  -- A request that meets the end of the cooldown decides the breaker's state: it is open afterwards
  -- exactly when the upstream failed, and otherwise it is closed with an empty window.
  pub transport_probe :
      (t : Readings) (answer : Answer E) (b : Breaker)
      → b.state ≡ open_state
      → b.opened_at + b.cfg.cooldown_period ≤ t.at_allow
      → let b' = (round_trip t answer b).0 in
        ((b'.state ≡ open_state) ↔ UpstreamFailed answer)
        × ((b'.state ≡ open_state) ⊎ ((b'.state ≡ closed) × (b'.failures ≡ [])))
  unfolding round_trip allow record_success record_failure
  transport_probe t (transport_error e) b s h = ground arith
  transport_probe t (response status) b s h = ground arith
  transport_probe t no_response b s h = ground arith

  -- An answer that is no upstream failure, a client's error included, never leaves an admitted
  -- request's breaker open; the breaker is open afterwards only if it refused the request.
  pub success_never_opens :
      (t : Readings) (answer : Answer E) (b : Breaker)
      → ¬ UpstreamFailed answer
      → (round_trip t answer b).0.state ≡ open_state
      → (round_trip t answer b ≡ (b, rejected (err_open b.cfg.name)))
        × (t.at_allow < b.opened_at + b.cfg.cooldown_period)
  unfolding round_trip allow record_success record_failure
  success_never_opens t (transport_error e) b ok h = absurd (ok tt)
  success_never_opens t (response status) b ok h = ground arith
  success_never_opens t no_response b ok h = ground arith
