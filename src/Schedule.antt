-- ===== src/Schedule.antt =====
-- When background work runs: scheduler/stagger.go (the hash of the organisation's name is a parameter),
-- backoff/backoff.go (the product with a power of two is one of numbers, as floating point has it for a base of
-- less than 104 days) and freshness/recorder.go (instants in nanoseconds; a stored row is the call of the sink).
pub mod Turns
mod Tests
use flyto_warroom.Prelude.{
  ℕ, zero, suc, ◌==◌, ◌+◌, ◌*◌, ◌/◌, ◌%◌, ◌^◌, String, Bool, true, false, not, ◌&&◌, ◌||◌, Option,
  none, some, List, [], ◌∷◌, select, ltb, leb, if◌then◌else◌, str_eq,
}

module _ (checksum : String → ℕ) where
  -- The bucket of an organisation; no buckets are a panic.
  unfoldable pub hour_bucket : (org_id : String) → (buckets : ℕ) → Option ℕ
  hour_bucket org_id buckets =
      if buckets == 0
      then none
      else if buckets == 1
      then some 0
      else some (checksum org_id % 2 ^ 32 % (buckets % 2 ^ 32))

  abbrev pub is_bucket : Option ℕ → ℕ → Bool
  is_bucket none current = false
  is_bucket (some bucket) current = bucket == current

  -- `hour` is that of the day in UTC.
  unfoldable pub is_bucket_due : (org_id : String) → (buckets hour : ℕ) → Bool
  unfolding hour_bucket
  is_bucket_due org_id buckets hour = is_bucket (hour_bucket org_id buckets) (hour % buckets)

  unfoldable pub filter_due_orgs : (org_ids : List String) → (buckets hour : ℕ) → List String
  unfolding hour_bucket select
  filter_due_orgs org_ids buckets hour =
      if leb buckets 1
      then org_ids
      else select (λ id. is_bucket (hour_bucket id buckets) (hour % buckets)) org_ids

pub record Controller : Type 0 where
  pub base_interval : ℕ
  pub max_interval : ℕ
  pub failures : ℕ

unfoldable pub new_controller : (base_interval max_interval : ℕ) → Controller
new_controller base_interval max_interval = record {
  base_interval = base_interval;
  max_interval = if ltb max_interval base_interval then base_interval else max_interval;
  failures = 0;
}

unfoldable pub next_interval : Controller → ℕ
next_interval c =
    if c.failures == 0
    then c.base_interval
    else let d = c.base_interval * 2 ^ c.failures in
      if ltb c.max_interval d then c.max_interval else d

unfoldable pub success : Controller → Controller
success c = record c { failures = 0 }

unfoldable pub failure : Controller → Controller
failure c = if ltb c.failures 16 then record c { failures = suc c.failures } else c

pub data Staleness : Type 0 where
  fresh stale never_seen : Staleness

-- `State`, where `status` may be one that the caller names.
pub record State : Type 0 where
  pub org_id : String
  pub surface : String
  pub component : String
  pub last_success_at : Option ℕ
  pub last_attempt_at : ℕ
  pub status : Staleness
  pub stale_after_seconds : ℕ
  pub source_job_id : String
  pub source_run_id : String

abbrev pub second : ℕ
second = 1_000_000_000

-- A window that is not positive is 0 seconds here.
unfoldable pub compute_status :
    (last_success : Option ℕ) → (stale_after_seconds now : ℕ) → Staleness
compute_status none stale_after_seconds now = never_seen
compute_status (some last) stale_after_seconds now =
    if stale_after_seconds == 0
    then fresh
    else if leb now (last + stale_after_seconds * second)
    then fresh
    else stale

unfoldable pub record_success :
    (org_id surface component : String) (stale_after : ℕ) (source_run_id : String) (now : ℕ)
    → Option State
unfolding compute_status
record_success org_id surface component stale_after source_run_id now =
    if str_eq surface "" || str_eq component ""
    then none
    else some (record {
      org_id = org_id;
      surface = surface;
      component = component;
      last_success_at = some now;
      last_attempt_at = now;
      status = compute_status (some now) (stale_after / second) now;
      stale_after_seconds = stale_after / second;
      source_job_id = component;
      source_run_id = source_run_id;
    })

abbrev pub or_computed : Option Staleness → Staleness → Staleness
or_computed none s = s
or_computed (some given) s = given

unfoldable pub record_attempt :
    (org_id surface component : String) (stale_after : ℕ) (prev_success : Option ℕ)
    (status : Option Staleness) (source_run_id : String) (now : ℕ)
    → Option State
unfolding compute_status
record_attempt org_id surface component stale_after prev_success status source_run_id now =
    if str_eq surface "" || str_eq component ""
    then none
    else some (record {
      org_id = org_id;
      surface = surface;
      component = component;
      last_success_at = prev_success;
      last_attempt_at = now;
      status = or_computed status (compute_status prev_success (stale_after / second) now);
      stale_after_seconds = stale_after / second;
      source_job_id = component;
      source_run_id = source_run_id;
    })
