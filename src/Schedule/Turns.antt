-- ===== src/Schedule/Turns.antt =====
-- Every organisation has its turn, and what a run of failures waits.
use flyto_warroom.Prelude.{
  ℕ, zero, suc, ◌==◌, ◌*◌, ◌%◌, ◌^◌, ◌≤◌, ◌<◌, ◌≡◌, String, true, none, some, List, [], ◌∷◌, arith,
  ltb, if◌then◌else◌,
}
use flyto_warroom.Schedule.{
  hour_bucket, is_bucket, is_bucket_due, Controller, new_controller, next_interval, success,
  failure,
}
use native.Mathlib.Nat.{mod-lt, mod-eq_of_lt}

-- The test of a bucket that is its own remainder.
due_in :
    (checksum : String → ℕ) (buckets bucket : ℕ)
    → 0 < buckets
    → bucket < buckets
    → bucket % buckets ≡ bucket
    → is_bucket checksum
        (if buckets == 0 then none else if buckets == 1 then some 0 else some bucket)
        (bucket % buckets)
      ≡ true
due_in checksum buckets bucket some_bucket within again = ground (arith, some_bucket, within, again)

-- With at most 24 buckets every organisation is due in some hour of the day.
pub due_every_day :
    (checksum : String → ℕ) (org_id : String) (buckets : ℕ)
    → 0 < buckets
    → buckets ≤ 24
    → (hour : ℕ) × ((hour < 24) × (is_bucket_due checksum org_id buckets hour ≡ true))
unfolding is_bucket_due hour_bucket
due_every_day checksum org_id buckets some_bucket few =
    let x = checksum org_id % 2 ^ 32 in
    let within : x % buckets < buckets = mod-lt x some_bucket in
    let no_wrap : buckets % 2 ^ 32 ≡ buckets = mod-eq_of_lt (omega (arith, few)) in
    let again : x % buckets % buckets ≡ x % buckets = mod-eq_of_lt within in
    (
      x % buckets,
      (
        omega (arith, within, few),
        rw no_wrap (due_in checksum buckets (x % buckets) some_bucket within again),
      ),
    )

-- The calls of the loop around a controller.
pub data Outcome : Type 0 where
  worked failed : Outcome

unfoldable pub after : List Outcome → Controller → Controller
unfolding success failure
after [] c = c
after (worked ∷ os) c = after os (success c)
after (failed ∷ os) c = after os (failure c)

IsCapped : Controller → Type 0
IsCapped c = (c.failures ≤ 16) × (c.base_interval ≤ c.max_interval)

after-IsCapped : (os : List Outcome) (c : Controller) → IsCapped c → IsCapped (after os c)
unfolding after success failure IsCapped
after-IsCapped [] c h = h
after-IsCapped (worked ∷ os) c h = after-IsCapped os (success c) (ground (arith, h))
after-IsCapped (failed ∷ os) c h = after-IsCapped os (failure c) (ground (arith, h))

new-IsCapped : (base cap : ℕ) → IsCapped (new_controller base cap)
unfolding new_controller IsCapped
new-IsCapped base cap = ground arith

capped-le : (c : Controller) → IsCapped c → c.base_interval ≤ c.max_interval
unfolding IsCapped
capped-le c h = h.1

two_pow-pos : (n : ℕ) → 0 < 2 ^ n
two_pow-pos zero = omega arith
two_pow-pos (suc n) = omega (arith, two_pow-pos n)

mul-grows : (n k : ℕ) → 0 < k → n ≤ n * k
mul-grows n zero h = absurd (omega (arith, h))
mul-grows n (suc k) h = omega arith

interval_in :
    (c : Controller)
    → c.base_interval ≤ c.max_interval
    → (c.base_interval ≤ next_interval c)
      × (next_interval c ≤ c.max_interval)
      × (next_interval c ≡ (
          if ltb c.max_interval (c.base_interval * 2 ^ c.failures)
          then c.max_interval
          else c.base_interval * 2 ^ c.failures))
unfolding next_interval
interval_in c h =
    let d = mul-grows c.base_interval (2 ^ c.failures) (two_pow-pos c.failures) in
    ground (arith, h, d, no_doubling c.base_interval c.failures)
  where
    no_doubling : (base n : ℕ) → n ≡ 0 → base * 2 ^ n ≡ base
    no_doubling base zero e = omega arith
    no_doubling base (suc n) e = absurd (omega (arith, e))

-- After any run of successes and failures the wait is between the base and the cap, the base doubled by each failure.
pub interval_bounds :
    (base cap : ℕ) (os : List Outcome)
    → let c = after os (new_controller base cap) in
      (c.base_interval ≤ next_interval c)
      × (next_interval c ≤ c.max_interval)
      × (next_interval c ≡ (
          if ltb c.max_interval (c.base_interval * 2 ^ c.failures)
          then c.max_interval
          else c.base_interval * 2 ^ c.failures))
unfolding next_interval
interval_bounds base cap os =
    let c = after os (new_controller base cap) in
    let capped = after-IsCapped os (new_controller base cap) (new-IsCapped base cap) in
    interval_in c (capped-le c capped)
