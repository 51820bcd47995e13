-- ===== src/Retry/Tests.antt =====
-- The retrying transport on concrete requests.
use flyto_warroom.Prelude.{◌≡◌, ◌^◌, ◌*◌, refl, true, false, List, [], ◌∷◌, arith, min, length}
use flyto_warroom.Retry.{
  RetryPolicy, Request, Answer, failed, response, Outside, round_trip, idempotent, backoff_delay,
}
use flyto_warroom.Retry.Delay.{backoff_delay-min, uncapped_overflow_waits_nothing}
use flyto_warroom.Retry.Attempts.{round_trip-IsProper, never_replayed, IsProper}

-- The answers to come; without any, the transport fails. The context never ends.
take_answer : List Answer → List Answer × Answer
take_answer [] = ([], failed)
take_answer (a ∷ rest) = (rest, a)

abbrev scripted : Outside
scripted = record {
  World = List Answer;
  send = take_answer;
  get_body = λ w. (w, true);
  wait = λ w d. (w, false);
}

abbrev capped : RetryPolicy
capped = record { max_attempts = 4; base_delay = 100; max_delay = 250 }

abbrev uncapped : RetryPolicy
uncapped = record { max_attempts = 80; base_delay = 1_000_000_000; max_delay = 0 }

abbrev get_it : Request
get_it = record { method = "GET"; has_body = false; has_get_body = false }

abbrev post_it : Request
post_it = record { method = "POST"; has_body = true; has_get_body = true }

abbrev busy_then_fine : List Answer
busy_then_fine = response 503 ∷ failed ∷ response 200 ∷ response 500 ∷ []

repeats_until_fine :
    (round_trip scripted capped get_it busy_then_fine).observed
    ≡ response 503 ∷ failed ∷ response 200 ∷ []
unfolding round_trip take_answer
repeats_until_fine = refl

backoff_delay-min_holds : backoff_delay capped 3 ≡ min (100 * 2 ^ 2) 250
backoff_delay-min_holds = backoff_delay-min capped 2 (omega arith) (omega arith) (omega arith)

uncapped_overflow_waits_nothing_holds : backoff_delay uncapped 61 ≡ 0
uncapped_overflow_waits_nothing_holds =
    uncapped_overflow_waits_nothing uncapped 60 refl (omega arith) (omega arith)

round_trip-IsProper_example :
    IsProper scripted capped get_it 1 3 (round_trip scripted capped get_it busy_then_fine)
round_trip-IsProper_example = round_trip-IsProper scripted capped get_it busy_then_fine

never_replayed_holds : length (round_trip scripted capped post_it busy_then_fine).observed ≡ 1
unfolding idempotent
never_replayed_holds = never_replayed scripted capped post_it busy_then_fine refl
