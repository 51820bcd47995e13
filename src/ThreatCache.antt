-- ===== src/ThreatCache.antt =====
-- internal/threatcache/threatcache.go: the write-through cache of threat-intelligence answers. The
-- store, SHA-256 and the fetchers are not in the program: they are parameters. Instants and
-- durations are counted in nanoseconds; a `ttl` of 0 stands for one that is not positive.
pub mod Serving
pub mod Renewal
mod Tests
use flyto_warroom.Prelude.{
  ℕ, ◌+◌, ◌-◌, ◌*◌, String, Bool, true, false, not, ◌&&◌, Option, none, some, List, [], ◌∷◌, ◌==◌,
  ltb, any, str_eq, if◌then◌else◌,
}
use Prim.Native.String.{◌++◌}

abbrev pub minute : ℕ
minute = 60_000_000_000

abbrev pub hour : ℕ
hour = 60 * minute

pub data Source : Type 0 where
  hibp hibp_paste abuse_ch abuseipdb virustotal shodan shodan_idb greynoise rdap crt_sh : Source
  ripe ipinfo ip_api urlscan : Source
  other : String → Source

pub source_name : Source → String
source_name hibp = "hibp"
source_name hibp_paste = "hibp_paste"
source_name abuse_ch = "abuse_ch"
source_name abuseipdb = "abuseipdb"
source_name virustotal = "virustotal"
source_name shodan = "shodan"
source_name shodan_idb = "shodan_internetdb"
source_name greynoise = "greynoise"
source_name rdap = "rdap"
source_name crt_sh = "crt_sh"
source_name ripe = "ripe"
source_name ipinfo = "ipinfo"
source_name ip_api = "ip_api"
source_name urlscan = "urlscan"
source_name (other s) = s

pub default_ttl : Source → ℕ
default_ttl hibp = 7 * 24 * hour
default_ttl hibp_paste = 7 * 24 * hour
default_ttl rdap = 7 * 24 * hour
default_ttl abuse_ch = hour
default_ttl abuseipdb = 24 * hour
default_ttl virustotal = 24 * hour
default_ttl urlscan = 12 * hour
default_ttl shodan = 12 * hour
default_ttl shodan_idb = 12 * hour
default_ttl greynoise = 12 * hour
default_ttl crt_sh = 24 * hour
default_ttl ripe = 24 * hour
default_ttl ipinfo = 24 * hour
default_ttl ip_api = 24 * hour
default_ttl (other s) = hour

pub record Result : Type 0 where
  pub data_bytes : List ℕ
  pub fetched_at : ℕ
  pub expires_at : ℕ
  pub from_cache : Bool
  pub is_stale : Bool
  pub was_updated : Bool
  pub response_hash : String

-- A row of `threat_intel_cache`.
pub record Row : Type 0 where
  pub body : List ℕ
  pub fetched_at : ℕ
  pub expires_at : ℕ
  pub response_hash : String

pub record ConditionalHints : Type 0 where
  pub if_none_match : String
  pub if_modified_since : String

-- A history row, less the identifier that the cache makes up.
pub record Change : Type 0 where
  pub prev_hash : String
  pub new_hash : String
  pub body : List ℕ
  pub observed_at : ℕ

-- The `Store` interface, over a state of its own. Reading gives `none` on an error, and so does
-- `UpsertCache`; the cache ignores the errors of the other two, which then may leave the state.
pub record Store : Type 1 where
  pub State : Type 0
  pub get_cache : State → String → String → Option Row
  pub upsert_cache : State → String → String → Row → Option State
  pub append_cache_history : State → String → String → Change → State
  pub get_cache_hints : State → String → String → Option ConditionalHints
  pub set_cache_hints : State → String → String → ConditionalHints → ℕ → Bool → State

pub data CacheError : Type 0 where
  err_no_fetcher : CacheError
  err_fetch : String → CacheError
  err_store : CacheError

pub data Fetched : Type 0 where
  fetch_failed : String → Fetched
  fetch_not_modified : ConditionalHints → Fetched
  fetch_body : List ℕ → ConditionalHints → Fetched

abbrev pub Fetcher : Type 0
Fetcher = ConditionalHints → Fetched

-- What a background refresh is started with.
pub record Job : Type 0 where
  pub source : Source
  pub key : String
  pub ttl : ℕ
  pub prev_hash : String
  pub fetcher : Fetcher

abbrev pub no_hints : ConditionalHints
no_hints = record { if_none_match = ""; if_modified_since = "" }

abbrev zero_row : Row
zero_row = record { body = []; fetched_at = 0; expires_at = 0; response_hash = "" }

pub row_or_zero : Option Row → Row
row_or_zero none = zero_row
row_or_zero (some row) = row

abbrev is_empty : List ℕ → Bool
is_empty [] = true
is_empty (b ∷ bs) = false

-- `err == nil && len(cached) > 0`
pub has_copy : Option Row → Bool
has_copy none = false
has_copy (some row) = not (is_empty row.body)

-- A result that repeats a row.
pub repeat : Row → Bool → Result
repeat row stale = record {
  data_bytes = row.body;
  fetched_at = row.fetched_at;
  expires_at = row.expires_at;
  from_cache = true;
  is_stale = stale;
  was_updated = false;
  response_hash = row.response_hash;
}

module _ (store : Store) (hash_of : List ℕ → String) (grace : Source → ℕ) where
  -- The store afterwards, what is returned, the refresh that was started, and how often the fetcher
  -- was called before returning.
  pub record Outcome : Type 0 where
    pub state : store.State
    pub result : Option Result
    pub error : Option CacheError
    pub spawned : Option Job
    pub calls : ℕ

  pub answer : store.State → Option Result → Option CacheError → Option Job → ℕ → Outcome
  answer s r e j n = record { state = s; result = r; error = e; spawned = j; calls = n }

  pub hints_or_none : Option ConditionalHints → ConditionalHints
  hints_or_none none = no_hints
  hints_or_none (some h) = h

  append_if_new : store.State → String → String → String → String → List ℕ → ℕ → store.State
  append_if_new s name key prev_hash new_hash body now =
      if str_eq new_hash prev_hash
      then s
      else store.append_cache_history s name key
          (record { prev_hash = prev_hash; new_hash = new_hash; body = body; observed_at = now })

  -- The end of the function, after the row has been written.
  pub after_write :
      Option store.State
      → String
      → String
      → ConditionalHints
      → ℕ
      → ℕ
      → String
      → List ℕ
      → store.State
      → Outcome
  unfolding answer append_if_new
  after_write none name key hints now ttl prev_hash body s = answer s none (some err_store) none 1
  after_write (some s') name key hints now ttl prev_hash body s =
      let new_hash = hash_of body in
      let s'' = store.set_cache_hints s' name key hints now false in
      answer (append_if_new s'' name key prev_hash new_hash body now)
        (some (record {
          data_bytes = body;
          fetched_at = now;
          expires_at = now + ttl;
          from_cache = false;
          is_stale = false;
          was_updated = not (str_eq new_hash prev_hash);
          response_hash = new_hash;
        }))
        none none 1

  or_same : Option store.State → store.State → store.State
  or_same none s = s
  or_same (some s') s = s'

  -- What follows the call of the fetcher.
  pub after_fetch :
      Fetched → String → String → ℕ → ℕ → Row → (has_cached : Bool) → store.State → Outcome
  unfolding answer after_write or_same
  after_fetch (fetch_failed e) name key now ttl row has_cached s =
      if has_cached
      then answer s (some (repeat row true)) (some (err_fetch e)) none 1
      else answer s none (some (err_fetch e)) none 1
  after_fetch (fetch_not_modified hints) name key now ttl row has_cached s =
      let s' = store.set_cache_hints s name key hints now true in
      let bumped = record row { expires_at = now + ttl } in
      let s'' = if has_cached then or_same (store.upsert_cache s' name key bumped) s' else s' in
      answer s'' (some (repeat bumped false)) none none 1
  after_fetch (fetch_body body hints) name key now ttl row has_cached s =
      after_write
        (store.upsert_cache s name key (record {
          body = body;
          fetched_at = now;
          expires_at = now + ttl;
          response_hash = hash_of body;
        }))
        name key hints now ttl row.response_hash body s

  -- No copy that may be served at once.
  pub fetch_now :
      Option Fetcher → String → String → ℕ → ℕ → Row → (has_cached : Bool) → store.State → Outcome
  unfolding answer after_fetch hints_or_none
  fetch_now none name key now ttl row has_cached s =
      if has_cached
      then answer s (some (repeat row true)) none none 0
      else answer s none (some err_no_fetcher) none 0
  fetch_now (some fetcher) name key now ttl row has_cached s =
      after_fetch (fetcher (hints_or_none (store.get_cache_hints s name key))) name key now ttl row
        has_cached s

  abbrev is_some_fetcher : Option Fetcher → Bool
  is_some_fetcher none = false
  is_some_fetcher (some f) = true

  spawn : Option Fetcher → Source → String → ℕ → String → Option Job
  spawn none source key ttl prev_hash = none
  spawn (some f) source key ttl prev_hash =
      some (record { source = source; key = key; ttl = ttl; prev_hash = prev_hash; fetcher = f })

  pub with_row : Option Row → Source → String → ℕ → Option Fetcher → ℕ → store.State → Outcome
  unfolding answer fetch_now spawn
  with_row found source key ttl fetcher now s =
      let row = row_or_zero found in
      let has_cached = has_copy found in
      if has_cached && ltb now row.expires_at
      then answer s (some (repeat row false)) none none 0
      else if has_cached && ltb now (row.expires_at + grace source) && is_some_fetcher fetcher
      then answer s (some (repeat row true)) none (spawn fetcher source key ttl row.response_hash) 0
      else fetch_now fetcher (source_name source) key now ttl row has_cached s

  pub effective_ttl : Source → ℕ → ℕ
  effective_ttl source ttl = if ttl == 0 then default_ttl source else ttl

  pub get_or_fetch_cond : Source → String → ℕ → Option Fetcher → ℕ → store.State → Outcome
  unfolding with_row
  get_or_fetch_cond source key ttl fetcher now s =
      with_row (store.get_cache s (source_name source) key) source key (effective_ttl source ttl)
        fetcher now s

  -- The shim that ignores the hints.
  abbrev wrap : (Unit {0} → Fetched) → Fetcher
  wrap f hints = f tt

  -- `Invalidate`. A missing row, and a failed write, leave the state.
  pub invalidate : Source → String → ℕ → store.State → store.State
  unfolding or_same
  invalidate source key now s = elim (store.get_cache s (source_name source) key) [
    | none ↦ s
    | some row ↦
        or_same
          (store.upsert_cache s (source_name source) key (record row { expires_at = now - minute }))
          s
  ]

  -- A background refresh, run to its end: its own reading of the clock, and its own fetch without
  -- hints. The flags of the refreshes in flight are left out.
  write_refreshed : Fetched → Job → ℕ → store.State → store.State
  unfolding append_if_new
  write_refreshed (fetch_failed e) job now s = s
  write_refreshed (fetch_not_modified hints) job now s = s
  write_refreshed (fetch_body [] hints) job now s = s
  write_refreshed (fetch_body (b ∷ bs) hints) job now s =
      let name = source_name job.source in
      let body = b ∷ bs in
      elim (store.upsert_cache s name job.key (record {
        body = body;
        fetched_at = now;
        expires_at = now + job.ttl;
        response_hash = hash_of body;
      })) [
        | none ↦ s
        | some s' ↦ append_if_new s' name job.key job.prev_hash (hash_of body) body now
      ]

  pub refresh : Job → ℕ → store.State → store.State
  unfolding write_refreshed
  refresh job now s = write_refreshed (job.fetcher no_hints) job now s
