-- ===== src/ThreatCache/Tests.antt =====
-- The cache over an association list, on concrete calls.
use flyto_warroom.Prelude.{
  ℕ, ◌+◌, ◌-◌, ◌*◌, ◌≤◌, ◌≡◌, ◌≢◌, ◌↔◌, ◌⊎◌, refl, ap, ◌∙◌, String, Bool, false, ◌&&◌, Option, none,
  some, List, [], ◌∷◌, arith, str_eq, eq_refl, if◌then◌else◌,
}
use flyto_warroom.ThreatCache.{
  Source, shodan, source_name, Row, row_or_zero, has_copy, repeat, Store, Fetcher, fetch_failed,
  fetch_body, no_hints, err_store, get_or_fetch_cond, effective_ttl, invalidate, minute, hour,
  answer,
}
use flyto_warroom.ThreatCache.Serving.{found, fetched_inline_iff, copy_survives_failure}
use flyto_warroom.ThreatCache.Renewal.{
  StoreLaws, ServesStale, invalidate-ServesStale, fetched_then_served,
}
use mathlib.Core.Path.{subst}
use mathlib.Core.Option.{get_or}

record Entry : Type 0 where
  source : String
  key : String
  row : Row

matches : Entry → String → String → Bool
matches e source key = str_eq e.source source && str_eq e.key key

find : List Entry → String → String → Option Row
unfolding matches
find [] source key = none
find (e ∷ es) source key =
    let rest = find es source key in if matches e source key then some e.row else rest

-- The newest entry counts; notes on hints and history are dropped.
abbrev listed : Store
listed = record {
  State = List Entry;
  get_cache = find;
  upsert_cache = λ s name key row. some (record { source = name; key = key; row = row } ∷ s);
  append_cache_history = λ s name key c. s;
  get_cache_hints = λ s name key. none;
  set_cache_hints = λ s name key h t b. s;
}

find_newest :
    (s : List Entry) (name key : String) (row : Row)
    → find (record { source = name; key = key; row = row } ∷ s) name key ≡ some row
unfolding find
find_newest s name key row =
    ap (λ b. if b && str_eq key key then some row else find s name key) (eq_refl name)
    ∙ ap (λ b. if b then some row else find s name key) (eq_refl key)

listed_laws : StoreLaws listed
listed_laws = record {
  get_upserted = λ s s' name key row h.
      subst (λ z. find z name key ≡ some row) (ap (λ o. get_or o []) h)
        (find_newest s name key row);
  get_hinted = λ s name key h t b. refl;
  get_appended = λ s name key c. refl;
}

no_hash : List ℕ → String
no_hash body = "hash"

half_hour : Source → ℕ
half_hour s = 30 * minute

abbrev copied : Row
copied = record { body = 7 ∷ []; fetched_at = 0; expires_at = 100 * hour; response_hash = "hash" }

abbrev one_copy : List Entry
one_copy = record { source = "shodan"; key = "ip"; row = copied } ∷ []

failing : Fetcher
failing h = fetch_failed "down"

answering : Fetcher
answering h = fetch_body (9 ∷ []) no_hints

fetched_inline_iff_holds :
    ((get_or_fetch_cond listed no_hash half_hour shodan "ip" 0
        (some failing)
        (102 * hour)
        one_copy).calls
      ≡ 1)
    ↔ ((some failing ≢ none)
        × ((has_copy (found listed no_hash half_hour shodan "ip" one_copy) ≡ false)
            ⊎ ((row_or_zero (found listed no_hash half_hour shodan "ip" one_copy)).expires_at
                ≤ 102 * hour)
              × ((row_or_zero (found listed no_hash half_hour shodan "ip" one_copy)).expires_at
                    + half_hour shodan
                  ≤ 102 * hour)))
fetched_inline_iff_holds =
    fetched_inline_iff listed no_hash half_hour shodan "ip" 0 (some failing) (102 * hour) one_copy

invalidate-ServesStale_holds :
    ServesStale listed listed_laws no_hash half_hour
      (get_or_fetch_cond listed no_hash half_hour shodan "ip" 0
        (some answering)
        (51 * hour)
        (invalidate listed no_hash half_hour shodan "ip" (51 * hour) one_copy))
      (record copied { expires_at = 51 * hour - minute })
unfolding find matches source_name has_copy half_hour
invalidate-ServesStale_holds =
    invalidate-ServesStale listed listed_laws no_hash half_hour shodan "ip" 0 answering (51 * hour)
      (51 * hour) one_copy
      (record {
        source = "shodan";
        key = "ip";
        row = record copied { expires_at = 51 * hour - minute };
      }
        ∷ one_copy)
      copied refl refl refl (omega arith) (omega arith)

abbrev fetched_row : Row
fetched_row = record {
  body = 9 ∷ [];
  fetched_at = 5;
  expires_at = 5 + effective_ttl listed no_hash half_hour shodan 60;
  response_hash = no_hash (9 ∷ []);
}

fetched_then_served_example :
    let after =
      (get_or_fetch_cond listed no_hash half_hour shodan "ip" 60 (some answering) 5 []).state in
    get_or_fetch_cond listed no_hash half_hour shodan "ip" 0 none 64 after
    ≡ answer listed no_hash half_hour after (some (repeat fetched_row false)) none none 0
unfolding find answering effective_ttl
fetched_then_served_example =
    fetched_then_served listed listed_laws no_hash half_hour shodan "ip" 60 0 answering none 5 64 []
      (record { source = source_name shodan; key = "ip"; row = fetched_row } ∷ []) 9 [] no_hints
      refl (λ h. refl) refl (omega arith)

-- A store that cannot be written: the one way to an empty answer while there is a copy.
abbrev read_only : Store
read_only = record {
  State = List Entry;
  get_cache = find;
  upsert_cache = λ s name key row. none;
  append_cache_history = λ s name key c. s;
  get_cache_hints = λ s name key. none;
  set_cache_hints = λ s name key h t b. s;
}

copy_survives_failure_holds :
    (get_or_fetch_cond read_only no_hash half_hour shodan "ip" 0
      (some answering)
      (102 * hour)
      one_copy).error
    ≡ some err_store
unfolding find matches source_name has_copy half_hour answering get_or_fetch_cond row_or_zero
copy_survives_failure_holds =
    copy_survives_failure read_only no_hash half_hour shodan "ip" 0 (some answering) (102 * hour)
      one_copy refl refl
