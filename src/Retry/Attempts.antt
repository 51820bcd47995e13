-- ===== src/Retry/Attempts.antt =====
-- How often the transport sends, what it repeats, and how long it waits in between.
use flyto_warroom.Prelude.{
  ℕ, zero, suc, ◌-◌, ◌≤◌, ◌<◌, ◌≡◌, ◌≢◌, refl, Bool, true, false, not, ◌||◌, arith, List, [], ◌∷◌,
  length, String, if_elim, ◌==◌,
}
use flyto_warroom.Retry.{
  RetryPolicy, Request, Answer, Outside, Trip, round_trip, rounds, idempotent, retryable,
  backoff_delay, finish, then_again, rewind_body, after_send, after_rewind, after_wait,
}

-- Each answer that another one follows was worth repeating.
abbrev pub Repeated : String → List Answer → Type 0
Repeated method [] = Unit
Repeated method (a ∷ rest) = (rest ≢ [] → retryable method a ≡ true) × Repeated method rest

-- The waits after the attempts from a number on.
abbrev pub Waits : RetryPolicy → ℕ → List ℕ → Type 0
Waits policy n [] = Unit
Waits policy n (d ∷ rest) = (d ≡ backoff_delay policy n) × Waits policy (suc n) rest

module _ (out : Outside) (policy : RetryPolicy) (req : Request) where
  -- One to `suc left` requests were sent, only answers worth it were repeated, and the waits are the
  -- policy's.
  pub record IsProper (attempt left : ℕ) (t : Trip out) : Type 0 where
    pub some_sent : 0 < length t.observed
    pub bounded : length t.observed ≤ suc left
    pub repeated : Repeated req.method t.observed
    pub waited : Waits policy attempt t.waits

  single : (attempt left : ℕ) (w : out.World) (a : Answer) → IsProper attempt left (finish out w a)
  unfolding finish
  single attempt left w a = record {
    some_sent = omega arith;
    bounded = omega arith;
    repeated = (λ h. absurd (h refl), tt);
    waited = tt;
  }

  again-IsProper :
      (attempt left : ℕ) (a : Answer) (t : Trip out)
      → retryable req.method a ≡ true
      → IsProper (suc attempt) left t
      → IsProper attempt (suc left) (then_again out a (backoff_delay policy attempt) t)
  unfolding then_again
  again-IsProper attempt left a t good p = record {
    some_sent = omega (arith, p.some_sent);
    bounded = omega (arith, p.bounded);
    repeated = (λ h. good, p.repeated);
    waited = (refl, p.waited);
  }

  wait-IsProper :
      (attempt left : ℕ) (r : out.World × Bool) (a : Answer) (again : out.World → Trip out)
      → retryable req.method a ≡ true
      → ((w : out.World) → IsProper (suc attempt) left (again w))
      → IsProper attempt (suc left) (after_wait out r a (backoff_delay policy attempt) again)
  unfolding after_wait
  wait-IsProper attempt left (w, true) a again good p = record {
    some_sent = omega arith;
    bounded = omega arith;
    repeated = (λ h. good, tt);
    waited = (refl, tt);
  }
  wait-IsProper attempt left (w, false) a again good p =
      again-IsProper attempt left a (again w) good (p w)

  rewind-IsProper :
      (attempt left : ℕ) (r : out.World × Bool) (a : Answer) (again : out.World → Trip out)
      → retryable req.method a ≡ true
      → ((w : out.World) → IsProper (suc attempt) left (again w))
      → IsProper attempt (suc left) (after_rewind out r a (backoff_delay policy attempt) again)
  unfolding after_rewind
  rewind-IsProper attempt left (w, false) a again good p = single attempt (suc left) w a
  rewind-IsProper attempt left (w, true) a again good p =
      wait-IsProper attempt left (out.wait w (backoff_delay policy attempt)) a again good p

  send-IsProper :
      (attempt left : ℕ) (r : out.World × Answer) (again : out.World → Trip out)
      → ((w : out.World) → IsProper (suc attempt) left (again w))
      → IsProper attempt (suc left) (after_send out r policy req attempt (suc left) again)
  unfolding after_send
  send-IsProper attempt left (w, a) again p =
      if_elim (IsProper attempt (suc left)) (suc left == 0 || not (retryable req.method a))
        (λ h. single attempt (suc left) w a)
        (λ h. rewind-IsProper attempt left (rewind_body out req w) a again (grind (arith)) p)

  rounds-IsProper :
      (attempt left : ℕ) (w : out.World)
      → IsProper attempt left (rounds out policy req attempt left w)
  unfolding rounds
  rounds-IsProper attempt zero w = single attempt zero (out.send w).0 (out.send w).1
  rounds-IsProper attempt (suc left) w =
      send-IsProper attempt left (out.send w) _ (λ w'. rounds-IsProper (suc attempt) left w')

  -- The transport sends at least one request and at most the larger of 1 and the policy's number;
  -- every request but the last got an answer that is worth repeating, and the n-th wait is the
  -- policy's delay after the n-th attempt.
  pub round_trip-IsProper :
      (w : out.World) → IsProper 1 (policy.max_attempts - 1) (round_trip out policy req w)
  unfolding round_trip
  round_trip-IsProper w = rounds-IsProper 1 (policy.max_attempts - 1) w

  one_sent :
      (xs : List Answer)
      → idempotent req.method ≡ false
      → 0 < length xs
      → Repeated req.method xs
      → length xs ≡ 1
  unfolding retryable
  one_sent [] h pos r = omega arith
  one_sent (a ∷ []) h pos r = refl
  one_sent (a ∷ b ∷ rest) h pos (r, s) =
      let again : retryable req.method a ≡ true = r (λ e. ground arith) in ground arith

  -- A request whose method is not idempotent is sent exactly once, however it fails.
  pub never_replayed :
      (w : out.World)
      → idempotent req.method ≡ false
      → length (round_trip out policy req w).observed ≡ 1
  never_replayed w h = let p = round_trip-IsProper w in one_sent _ h p.some_sent p.repeated
