-- ===== src/Circuit/Invariant.antt =====
-- What holds of a breaker between two calls of its methods.
use flyto_warroom.Prelude.{
  ℕ, ◌+◌, ◌≤◌, ◌<◌, ◌≡◌, ◌⊎◌, refl, ◌∙◌, List, [], ◌∷◌, arith, length, length-select-le, some,
}
use flyto_warroom.Circuit.{
  closed, open_state, half_open, Config, Breaker, new, allow, err_open, record_success,
  record_failure, recent,
}

-- One call of a method, with its readings of the clock.
pub data Op : Type 0 where
  op_allow : ℕ → Op
  op_success : ℕ → Op
  op_failure : ℕ → ℕ → Op

unfoldable pub step : Op → Breaker → Breaker
step (op_allow now) b = (allow now b).0
step (op_success now) b = record_success now b
step (op_failure now trim_now) b = record_failure now trim_now b

unfoldable pub run : List Op → Breaker → Breaker
run [] b = b
run (o ∷ os) b = run os (step o b)

pub record IsValid (b : Breaker) : Type 0 where
  pub threshold_set : 0 < b.cfg.failure_threshold
  pub probes_set : 0 < b.cfg.max_half_open_probes
  pub below_threshold : b.state ≡ closed → length b.failures < b.cfg.failure_threshold
  pub no_probe_outside : (b.state ≡ half_open) ⊎ (b.half_open_probes ≡ 0)
  pub probing : b.state ≡ half_open → 0 < b.half_open_probes
  pub probes_capped : b.half_open_probes ≤ b.cfg.max_half_open_probes

-- Every configuration gives a valid breaker, the zero configuration included.
pub new-IsValid : (cfg : Config) → IsValid (new cfg)
unfolding new
new-IsValid cfg = ground arith

length-recent-le : (t w : ℕ) (times : List ℕ) → length (recent t w times) ≤ length times
unfolding recent
length-recent-le t w times = length-select-le _ times

-- Every method, whatever its readings of the clock, keeps the invariant.
pub step-IsValid : (o : Op) (b : Breaker) → IsValid b → IsValid (step o b)
unfolding step allow record_success record_failure
step-IsValid (op_allow now) b v = ground arith
step-IsValid (op_success now) b v = ground (arith, length-recent-le now b.cfg.window b.failures)
step-IsValid (op_failure now trim_now) b v = ground arith

-- Whatever calls are made, a breaker made by `New` stays valid.
pub run-IsValid : (os : List Op) (b : Breaker) → IsValid b → IsValid (run os b)
unfolding run
run-IsValid [] b v = v
run-IsValid (o ∷ os) b v = run-IsValid os (step o b) (step-IsValid o b v)

pub cfg-step : (o : Op) (b : Breaker) → (step o b).cfg ≡ b.cfg
unfolding step allow record_success record_failure
cfg-step (op_allow now) b = ground arith
cfg-step (op_success now) b = ground arith
cfg-step (op_failure now trim_now) b = ground arith

pub cfg-run : (os : List Op) (b : Breaker) → (run os b).cfg ≡ b.cfg
unfolding run
cfg-run [] b = refl
cfg-run (o ∷ os) b = cfg-run os (step o b) ∙ cfg-step o b

-- The reading with which a call asks for admission, or records.
abbrev pub reading : Op → ℕ
reading (op_allow now) = now
reading (op_success now) = now
reading (op_failure now trim_now) = now

-- Every reading lies before the end of the cooldown.
abbrev pub AllBefore : ℕ → List Op → Type 0
AllBefore end [] = Unit {0}
AllBefore end (o ∷ os) = (reading o < end) × AllBefore end os

cooling-step :
    (o : Op) (b : Breaker)
    → b.state ≡ open_state
    → reading o < b.opened_at + b.cfg.cooldown_period
    → step o b ≡ b
unfolding step allow record_success record_failure
cooling-step (op_allow now) b s h = ground arith
cooling-step (op_success now) b s h = ground arith
cooling-step (op_failure now trim_now) b s h = ground arith

-- Until the cooldown is over, no call of any method changes an open breaker.
pub cooling-run :
    (os : List Op) (b : Breaker)
    → b.state ≡ open_state
    → AllBefore (b.opened_at + b.cfg.cooldown_period) os
    → run os b ≡ b
unfolding run
cooling-run [] b s h = refl
cooling-run (o ∷ os) b s h = rw (cooling-step o b s h.0) (cooling-run os b s h.1)

-- From an open breaker, as long as every reading of the clock lies before the end of the cooldown,
-- no sequence of calls changes the breaker, and the next `Allow` is refused with `ErrOpen`.
pub cooldown_fails_fast :
    (os : List Op) (b : Breaker) (now : ℕ)
    → b.state ≡ open_state
    → AllBefore (b.opened_at + b.cfg.cooldown_period) os
    → now < b.opened_at + b.cfg.cooldown_period
    → (run os b ≡ b) × (allow now (run os b) ≡ (b, some (err_open b.cfg.name)))
unfolding allow
cooldown_fails_fast os b now s h n =
    (cooling-run os b s h, rw (cooling-run os b s h) (ground arith))
