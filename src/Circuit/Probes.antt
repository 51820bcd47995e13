-- ===== src/Circuit/Probes.antt =====
-- What an open breaker lets through once its cooldown is over.
use flyto_warroom.Prelude.{
  ℕ, ◌+◌, ◌-◌, ◌≤◌, ◌≡◌, Option, none, some, List, [], ◌∷◌, arith, length, min,
}
use flyto_warroom.Circuit.{
  closed, open_state, half_open, Breaker, AllowError, allow, called, Readings, do_call,
  record_success, record_failure,
}
use flyto_warroom.Circuit.Invariant.{IsValid}

abbrev pub one_if_admitted : Option AllowError → ℕ
one_if_admitted none = 1
one_if_admitted (some e) = 0

-- How many of a row of `Allow` calls are admitted, while none of the admitted calls has returned.
unfoldable pub admitted : List ℕ → Breaker → ℕ
admitted [] b = 0
admitted (now ∷ times) b = let (b', e) = allow now b in one_if_admitted e + admitted times b'

abbrev pub AllAfter : ℕ → List ℕ → Type 0
AllAfter start [] = Unit {0}
AllAfter start (t ∷ ts) = (start ≤ t) × AllAfter start ts

half_open_admits :
    (times : List ℕ) (b : Breaker)
    → b.state ≡ half_open
    → admitted times b ≡ min (length times) (b.cfg.max_half_open_probes - b.half_open_probes)
unfolding admitted allow
half_open_admits [] b s = omega arith
half_open_admits (now ∷ times) b s = ground (
  arith,
  half_open_admits times (record b { half_open_probes = b.half_open_probes + 1 }),
  half_open_admits times b,
)

-- From a valid open breaker, at readings past the cooldown, a row of `Allow` calls of which none has
-- been recorded yet is admitted up to the limit on probes, and no further.
pub probes_admitted :
    (times : List ℕ) (b : Breaker)
    → IsValid b
    → b.state ≡ open_state
    → AllAfter (b.opened_at + b.cfg.cooldown_period) times
    → admitted times b ≡ min (length times) b.cfg.max_half_open_probes
unfolding admitted allow
probes_admitted [] b v s h = omega arith
probes_admitted (now ∷ times) b v s h =
    ground (arith, half_open_admits times (record b { state = half_open; half_open_probes = 1 }))

-- From an open breaker past its cooldown, `Do` makes the call. If the call succeeds the breaker is
-- closed with no failure and no probe left; if it fails the breaker is open again from that reading.
pub probe_decides :
    {E : Type 0} (t : Readings) (call : Option E) (b : Breaker)
    → b.state ≡ open_state
    → b.opened_at + b.cfg.cooldown_period ≤ t.at_allow
    → do_call t call b ≡ (
      elim call [
        | none ↦ record b { state = closed; failures = []; half_open_probes = 0 }
        | some e ↦ record b { state = open_state; opened_at = t.at_record; half_open_probes = 0 }
      ],
      called call,
    )
unfolding do_call allow record_success record_failure
probe_decides t none b s h = ground arith
probe_decides t (some e) b s h = ground arith
