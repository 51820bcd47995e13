-- ===== src/Circuit/Tests.antt =====
-- Runs of the breaker, and its theorems at concrete inputs.
use flyto_warroom.Prelude.{
  ◌≤◌, ◌<◌, ◌≡◌, ◌↔◌, ◌⊎◌, refl, String, none, some, List, [], ◌∷◌, arith, min, select,
}
use flyto_warroom.Prelude.Dict.{lookup, insert}
use flyto_warroom.Circuit.{
  closed, open_state, Config, Breaker, err_open, default_config, new, allow, recent, record_failure,
  Readings, do_call, called,
}
use flyto_warroom.Circuit.Invariant.{
  Op, op_allow, op_success, op_failure, step, run, IsValid, new-IsValid, run-IsValid,
  cooldown_fails_fast,
}
use flyto_warroom.Circuit.Window.{opens_iff, in_the_window}
use flyto_warroom.Circuit.Probes.{admitted, probes_admitted, probe_decides}
use flyto_warroom.Circuit.Registry.{Registry, new_registry, get, call_at, breaker_of}
use flyto_warroom.Circuit.Registry.Sharing.{
  new_registry-IsSound, get-IsSound, breaker_of-get, breaker_of-call_at,
}
use flyto_warroom.Circuit.Transport.{
  response, rejected, round_trip, transport_probe, success_never_opens,
}

-- Two failures within ten units open it; it cools down for five.
abbrev small : Config
small = record {
  name = "github";
  failure_threshold = 2;
  window = 10;
  cooldown_period = 5;
  max_half_open_probes = 1;
}

abbrev one_failure : List Op
one_failure = op_allow 1 ∷ op_failure 2 2 ∷ []

abbrev two_failures : List Op
two_failures = op_failure 2 2 ∷ op_failure 3 3 ∷ []

abbrev tripped : Breaker
tripped = run two_failures (new small)

trips_on_second : tripped.state ≡ open_state
unfolding run step record_failure recent select new
trips_on_second = refl

spaced_failures_stay_closed :
    (run (op_failure 2 2 ∷ op_failure 12 12 ∷ []) (new small)).state ≡ closed
unfolding run step record_failure recent select new
spaced_failures_stay_closed = refl

run-IsValid_example : IsValid (run two_failures (new small))
run-IsValid_example = run-IsValid two_failures (new small) (new-IsValid small)

cooldown_fails_fast_holds :
    (run (op_allow 4 ∷ op_success 5 ∷ []) tripped ≡ tripped)
    × (allow 7 (run (op_allow 4 ∷ op_success 5 ∷ []) tripped) ≡ (tripped, some (err_open "github")))
unfolding run step record_failure recent select new
cooldown_fails_fast_holds =
    cooldown_fails_fast (op_allow 4 ∷ op_success 5 ∷ []) tripped 7 refl (omega arith) (omega arith)

opens_iff_example :
    ((record_failure 4 4 (run one_failure (new small))).state ≡ open_state)
    ↔ ((new small).cfg.failure_threshold ≤ in_the_window small one_failure 4 4)
unfolding run step allow record_failure recent select new
opens_iff_example = opens_iff small one_failure 4 4 (omega arith) refl (omega arith) (omega arith)

probes_admitted_holds : admitted (8 ∷ 9 ∷ 9 ∷ []) tripped ≡ min 3 tripped.cfg.max_half_open_probes
unfolding run step record_failure recent select new
probes_admitted_holds =
    probes_admitted (8 ∷ 9 ∷ 9 ∷ []) tripped
      (run-IsValid two_failures (new small) (new-IsValid small)) refl (omega arith)

abbrev later : Readings
later = record { at_allow = 8; at_record = 9; at_trim = 9 }

probe_decides_example :
    do_call {E = String} later none tripped
    ≡ (record tripped { state = closed; failures = []; half_open_probes = 0 }, called none)
unfolding run step record_failure recent select new
probe_decides_example = probe_decides later none tripped refl (omega arith)

abbrev github_only : Registry
github_only = (get "github" new_registry).0

getting_keeps_others :
    breaker_of "github" (get "openai" github_only).0 ≡ breaker_of "github" github_only
getting_keeps_others =
    breaker_of-get "openai" "github" github_only
      (get-IsSound "github" new_registry new_registry-IsSound)

breaker_of-call_at_holds :
    breaker_of "github" (call_at 0 (op_failure 1 1) github_only)
    ≡ some (step (op_failure 1 1) (new (default_config "github")))
unfolding get breaker_of lookup insert new_registry
breaker_of-call_at_holds =
    breaker_of-call_at "github" "github" 0 (op_failure 1 1) github_only
      (get-IsSound "github" new_registry new_registry-IsSound) refl

transport_probe_holds :
    let b' = (round_trip {E = String} later (response 503) tripped).0 in
    ((b'.state ≡ open_state) ↔ (500 ≤ 503))
    × ((b'.state ≡ open_state) ⊎ ((b'.state ≡ closed) × (b'.failures ≡ [])))
unfolding run step record_failure recent select new
transport_probe_holds = transport_probe later (response 503) tripped refl (omega arith)

success_never_opens_holds :
    (round_trip {E = String} (record later { at_allow = 4 }) (response 404) tripped
      ≡ (tripped, rejected (err_open "github")))
    × (4 < 8)
unfolding run step allow record_failure recent select new round_trip
success_never_opens_holds =
    success_never_opens {E = String} (record later { at_allow = 4 }) (response 404) tripped
      (λ h. omega arith) refl
