-- ===== src/Retry/Delay.antt =====
-- The delay before a repetition, in closed form.
use flyto_warroom.Prelude.{
  ℕ, zero, suc, ◌*◌, ◌%◌, ◌^◌, ◌≤◌, ◌<◌, ◌≡◌, refl, arith, min, ◌∙◌, sym, ap, leb, ltb,
  if◌then◌else◌, if_elim, ◌||◌, ◌&&◌,
}
use mathlib.Core.Path.{subst}
use flyto_warroom.Retry.{RetryPolicy, backoff_delay, doubled, is_negative}

power_pos : (n : ℕ) → 0 < 2 ^ n
power_pos zero = omega arith
power_pos (suc n) = omega (arith, power_pos n)

grows : (m d n : ℕ) → m ≤ d → m ≤ d * 2 ^ n
grows m d n h = grind (arith, power_pos n)

shift : (d n : ℕ) → d * 2 ^ suc n ≡ (d * 2) * 2 ^ n
shift d n = grind arith

no_wrap : (d : ℕ) → d < 2 ^ 63 → d * 2 % 2 ^ 64 ≡ d * 2
no_wrap d h = omega arith

step :
    (m d n : ℕ)
    → d < 2 ^ 63
    → doubled m d (suc n)
      ≡ (if leb (2 ^ 63) (d * 2) || ltb 0 m && ltb m (d * 2) then m else doubled m (d * 2) n)
unfolding doubled is_negative
step m d n h =
    ap (λ x. if leb (2 ^ 63) x || ltb 0 m && ltb m x then m else doubled m x n) (no_wrap d h)

-- The loop from a delay `d` that is not negative, under a cap.
doubled-min : (m d n : ℕ) → 0 < m → m < 2 ^ 63 → d < 2 ^ 63 → doubled m d n ≡ min (d * 2 ^ n) m
unfolding doubled
doubled-min m d zero pos hm hd = ground arith
doubled-min m d (suc n) pos hm hd =
    let small = doubled-min m (d * 2) n pos hm in
    let big = grows m (d * 2) n in
    let s = step m d n hd in
    subst (λ x. doubled m d (suc n) ≡ min x m) (sym (shift d n))
      (s
        ∙ if_elim (λ x. x ≡ min (d * 2 * 2 ^ n) m)
            (leb (2 ^ 63) (d * 2) || ltb 0 m && ltb m (d * 2))
            (λ h. omega (arith, big (ground arith))) (λ h. small (ground arith)))

-- Without a cap.
doubled_wide : (d n : ℕ) → d < 2 ^ 63 → 2 ^ 63 ≤ d * 2 ^ n → doubled 0 d n ≡ 0
unfolding doubled
doubled_wide d zero hd h = omega arith
doubled_wide d (suc n) hd h =
    let h' : 2 ^ 63 ≤ d * 2 * 2 ^ n = subst (λ x. 2 ^ 63 ≤ x) (shift d n) h in
    step 0 d n hd
    ∙ if_elim (λ x. x ≡ 0) (leb (2 ^ 63) (d * 2) || ltb 0 0 && ltb 0 (d * 2)) (λ e. refl)
        (λ e. doubled_wide (d * 2) n (ground arith) h')

-- Under a cap that is positive and fits the int64, the wait after the (n+1)-th attempt is
-- `min (base * 2 ^ n) cap`, also where the doubling overflows.
pub backoff_delay-min :
    (p : RetryPolicy) (n : ℕ)
    → 0 < p.max_delay
    → p.max_delay < 2 ^ 63
    → p.base_delay < 2 ^ 63
    → backoff_delay p (suc n) ≡ min (p.base_delay * 2 ^ n) p.max_delay
unfolding backoff_delay
backoff_delay-min p n pos hm hd =
    ap (doubled p.max_delay p.base_delay) (omega arith)
    ∙ doubled-min p.max_delay p.base_delay n pos hm hd

-- Without a cap (0), the wait is nothing as soon as `base * 2 ^ n` outgrows the int64.
pub uncapped_overflow_waits_nothing :
    (p : RetryPolicy) (n : ℕ)
    → p.max_delay ≡ 0
    → p.base_delay < 2 ^ 63
    → 2 ^ 63 ≤ p.base_delay * 2 ^ n
    → backoff_delay p (suc n) ≡ 0
unfolding backoff_delay
uncapped_overflow_waits_nothing p n zero_cap hd h =
    ap (doubled p.max_delay p.base_delay) (omega arith)
    ∙ ap (λ m. doubled m p.base_delay n) zero_cap
    ∙ doubled_wide p.base_delay n hd h
