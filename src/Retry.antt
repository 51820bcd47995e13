-- ===== src/Retry.antt =====
-- internal/httpx/retry.go: the HTTP transport that repeats a request. Durations are in nanoseconds, as
-- the bits of an int64. What is not in the program (the base transport, `GetBody`, the clock and the
-- request's context) acts on a state of the outside world.
pub mod Delay
pub mod Attempts
mod Tests
use flyto_warroom.Prelude.{
  ℕ, zero, suc, ◌-◌, ◌*◌, ◌%◌, ◌^◌, String, Bool, true, false, not, ◌&&◌, ◌||◌, Option, none, some,
  List, [], ◌∷◌, ◌==◌, ltb, leb, if◌then◌else◌, str_eq,
}

pub record RetryPolicy : Type 0 where
  pub max_attempts : ℕ
  pub base_delay : ℕ
  pub max_delay : ℕ

-- A transport error, or a response with its status.
pub data Answer : Type 0 where
  failed : Answer
  response : ℕ → Answer

pub idempotent : String → Bool
idempotent m =
    str_eq m "GET"
    || str_eq m "HEAD"
    || str_eq m "OPTIONS"
    || str_eq m "PUT"
    || str_eq m "DELETE"
    || str_eq m "TRACE"

pub retryable_answer : Answer → Bool
retryable_answer failed = true
retryable_answer (response code) = code == 429 || code == 502 || code == 503 || code == 504

pub retryable : String → Answer → Bool
unfolding idempotent retryable_answer
retryable method a = if idempotent method then retryable_answer a else false

-- `d < 0`, of the bits of an int64
pub is_negative : ℕ → Bool
is_negative d = leb (2 ^ 63) d

-- The loop `for i := 1; i < attempt; i++`, by the rounds left, and the test after it.
pub doubled : ℕ → ℕ → (rounds : ℕ) → ℕ
unfolding is_negative
doubled max_delay d zero = if ltb 0 max_delay && ltb max_delay d then max_delay else d
doubled max_delay d (suc rounds) =
    let d' = d * 2 % 2 ^ 64 in
    let rest = doubled max_delay d' rounds in
    if is_negative d' || ltb 0 max_delay && ltb max_delay d' then max_delay else rest

pub backoff_delay : RetryPolicy → (attempt : ℕ) → ℕ
unfolding doubled
backoff_delay p attempt = doubled p.max_delay p.base_delay (attempt - 1)

-- The transport below, and the request's context: `wait` is the `select` on the context and on a
-- timer, and says whether the context ended.
pub record Outside : Type 1 where
  pub World : Type 0
  pub send : World → World × Answer
  pub get_body : World → World × Bool
  pub wait : World → ℕ → World × Bool

pub record Request : Type 0 where
  pub method : String
  pub has_body : Bool
  pub has_get_body : Bool

-- What is returned: the last answer, or the context's error.
pub data Returned : Type 0 where
  answered : Answer → Returned
  context_ended : Returned

module _ (out : Outside) where
  -- The world afterwards, what is returned, what the observer saw, and the waits that were begun.
  pub record Trip : Type 0 where
    pub world : out.World
    pub returned : Returned
    pub observed : List Answer
    pub waits : List ℕ

  finish : out.World → Answer → Trip
  finish w a = record { world = w; returned = answered a; observed = a ∷ []; waits = [] }

  pub rewind_body : Request → out.World → out.World × Bool
  rewind_body req w =
      if not req.has_body
      then (w, true)
      else if not req.has_get_body
      then (w, false)
      else out.get_body w

  then_again : Answer → ℕ → Trip → Trip
  then_again a delay t = record {
    world = t.world;
    returned = t.returned;
    observed = a ∷ t.observed;
    waits = delay ∷ t.waits;
  }

  after_wait : out.World × Bool → Answer → ℕ → (out.World → Trip) → Trip
  unfolding then_again
  after_wait (w, true) a delay again = record {
    world = w;
    returned = context_ended;
    observed = a ∷ [];
    waits = delay ∷ [];
  }
  after_wait (w, false) a delay again = then_again a delay (again w)

  after_rewind : out.World × Bool → Answer → ℕ → (out.World → Trip) → Trip
  unfolding after_wait finish
  after_rewind (w, false) a delay again = finish w a
  after_rewind (w, true) a delay again = after_wait (out.wait w delay) a delay again

  -- One round of the loop. `left` is how many may follow, so it is the last where `left` is 0.
  after_send : out.World × Answer → RetryPolicy → Request → ℕ → ℕ → (out.World → Trip) → Trip
  unfolding after_rewind finish rewind_body backoff_delay retryable
  after_send (w, a) policy req attempt left again =
      if left == 0 || not (retryable req.method a)
      then finish w a
      else after_rewind (rewind_body req w) a (backoff_delay policy attempt) again

  pub rounds : RetryPolicy → Request → (attempt left : ℕ) → out.World → Trip
  unfolding after_send finish
  rounds policy req attempt zero w =
      after_send (out.send w) policy req attempt zero (λ w'. finish w' failed)
  rounds policy req attempt (suc left) w =
      after_send (out.send w) policy req attempt (suc left)
        (λ w'. rounds policy req (suc attempt) left w')

  pub round_trip : RetryPolicy → Request → out.World → Trip
  unfolding rounds
  round_trip policy req w = rounds policy req 1 (policy.max_attempts - 1) w
