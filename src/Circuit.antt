-- ===== src/Circuit.antt =====
-- internal/circuit/circuit.go: the circuit breaker. A method that mutates `*Breaker` returns the
-- new record. Each reading of the clock, in nanoseconds, is an argument: `RecordFailure` reads it
-- twice, once for the failure and once in `trimLocked`. The configured numbers are not negative.
pub mod Invariant
pub mod Window
pub mod Probes
pub mod Registry
pub mod Transport
mod Tests
use flyto_warroom.Prelude.{
  ℕ, ◌+◌, ◌*◌, String, Bool, Option, none, some, List, [], ◌∷◌, ◌++◌, ◌==◌, ltb, leb, length,
  select, if◌then◌else◌,
}

pub data State : Type 0 where
  closed open_state half_open : State

unfoldable pub state_string : State → String
state_string closed = "closed"
state_string open_state = "open"
state_string half_open = "half-open"

abbrev pub second : ℕ
second = 1_000_000_000

pub record Config : Type 0 where
  pub name : String
  pub failure_threshold : ℕ
  pub window : ℕ
  pub cooldown_period : ℕ
  pub max_half_open_probes : ℕ

unfoldable pub default_config : String → Config
default_config name = record {
  name = name;
  failure_threshold = 5;
  window = 60 * second;
  cooldown_period = 30 * second;
  max_half_open_probes = 1;
}

-- Both errors of `Allow` wrap `ErrOpen` and name the upstream.
pub data AllowError : Type 0 where
  err_open : String → AllowError
  err_probe_in_flight : String → AllowError

pub record Breaker : Type 0 where
  pub cfg : Config
  pub state : State
  pub failures : List ℕ
  pub opened_at : ℕ
  pub half_open_probes : ℕ

-- A zero field of the configuration takes its default.
or_default : ℕ → ℕ → ℕ
or_default v d = if v == 0 then d else v

unfoldable pub new : Config → Breaker
unfolding or_default
new cfg = record {
  cfg = record {
    name = cfg.name;
    failure_threshold = or_default cfg.failure_threshold 5;
    window = or_default cfg.window (60 * second);
    cooldown_period = or_default cfg.cooldown_period (30 * second);
    max_half_open_probes = or_default cfg.max_half_open_probes 1;
  };
  state = closed;
  failures = [];
  opened_at = 0;
  half_open_probes = 0;
}

allow_in : State → ℕ → Breaker → Breaker × Option AllowError
allow_in closed now b = (b, none)
allow_in open_state now b =
    if leb (b.opened_at + b.cfg.cooldown_period) now
    then (record b { state = half_open; half_open_probes = 1 }, none)
    else (b, some (err_open b.cfg.name))
allow_in half_open now b =
    if leb b.cfg.max_half_open_probes b.half_open_probes
    then (b, some (err_probe_in_flight b.cfg.name))
    else (record b { half_open_probes = b.half_open_probes + 1 }, none)

unfoldable pub allow : ℕ → Breaker → Breaker × Option AllowError
unfolding allow_in
allow now b = allow_in b.state now b

-- `t.After(now - window)`
in_window : ℕ → ℕ → ℕ → Bool
in_window now window t = ltb now (t + window)

-- The times that `trimLocked` keeps.
unfoldable pub recent : ℕ → ℕ → List ℕ → List ℕ
unfolding in_window
recent now window times = select (in_window now window) times

pub trim : ℕ → Breaker → Breaker
trim now b = record b { failures = recent now b.cfg.window b.failures }

record_success_in : State → ℕ → Breaker → Breaker
unfolding trim
record_success_in half_open now b = record b { state = closed; failures = []; half_open_probes = 0 }
record_success_in closed now b = trim now b
record_success_in open_state now b = b

unfoldable pub record_success : ℕ → Breaker → Breaker
unfolding record_success_in
record_success now b = record_success_in b.state now b

-- The test after the failure has been appended and the window trimmed.
trip : ℕ → Breaker → Breaker
trip now b =
    if leb b.cfg.failure_threshold (length b.failures)
    then record b { state = open_state; opened_at = now }
    else b

record_failure_in : State → ℕ → ℕ → Breaker → Breaker
unfolding trim trip
record_failure_in closed now trim_now b =
    trip now (trim trim_now (record b { failures = b.failures ++ now ∷ [] }))
record_failure_in half_open now trim_now b = record b {
  state = open_state;
  opened_at = now;
  half_open_probes = 0;
}
record_failure_in open_state now trim_now b = b

unfoldable pub record_failure : ℕ → ℕ → Breaker → Breaker
unfolding record_failure_in
record_failure now trim_now b = record_failure_in b.state now trim_now b

-- The result of `Do`: the breaker refused, or the call was made and its own error is returned.
pub data DoResult {ℓ} (E : Type ℓ) : Type ℓ where
  refused : AllowError → DoResult E
  called : Option E → DoResult E

-- The clock readings of one `Do`: in `Allow`, in `Record…`, and in the trimming.
pub record Readings : Type 0 where
  pub at_allow : ℕ
  pub at_record : ℕ
  pub at_trim : ℕ

after_call {ℓ} : {E : Type ℓ} → Readings → Breaker → Option E → Breaker
after_call t b none = record_success t.at_record b
after_call t b (some e) = record_failure t.at_record t.at_trim b

-- The call is run only if it is admitted; `call` is what it then returns.
do_allowed {ℓ} :
    {E : Type ℓ} → Readings → Option E → Breaker × Option AllowError → Breaker × DoResult E
unfolding after_call
do_allowed t call (b, some e) = (b, refused e)
do_allowed t call (b, none) = (after_call t b call, called call)

unfoldable pub do_call {ℓ} : {E : Type ℓ} → Readings → Option E → Breaker → Breaker × DoResult E
unfolding do_allowed
do_call t call b = do_allowed t call (allow t.at_allow b)
