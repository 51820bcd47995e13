-- ===== src/Schedule/Tests.antt =====
-- Turns of an organisation with 8 and with 48 buckets.
use flyto_warroom.Prelude.{ℕ, ◌%◌, ◌<◌, ◌≡◌, refl, String, true, false, [], ◌∷◌, arith}
use native.Mathlib.Nat.{mod-eq_of_lt}
use flyto_warroom.Schedule.{is_bucket_due, hour_bucket, new_controller, next_interval, failure}
use flyto_warroom.Schedule.Turns.{due_every_day, failed, after}

-- A stand-in for the checksum.
abbrev thirty : String → ℕ
thirty org_id = 30

due_every_day_example : (hour : ℕ) × ((hour < 24) × (is_bucket_due thirty "org_1" 8 hour ≡ true))
due_every_day_example = due_every_day thirty "org_1" 8 (omega arith) (omega arith)

-- With more buckets than hours the buckets from 24 on have no turn.
never_due : (hour : ℕ) → hour < 24 → is_bucket_due thirty "org_1" 48 hour ≡ false
unfolding is_bucket_due hour_bucket
never_due hour h =
    let same : hour % 48 ≡ hour = mod-eq_of_lt (omega (arith, h)) in rw same (ground (arith, h))

three_failures : next_interval (after (failed ∷ failed ∷ failed ∷ []) (new_controller 5 60)) ≡ 40
unfolding next_interval new_controller after failure
three_failures = refl

five_failures :
    next_interval (after (failed ∷ failed ∷ failed ∷ failed ∷ failed ∷ []) (new_controller 5 60))
    ≡ 60
unfolding next_interval new_controller after failure
five_failures = refl
