-- ===== src/ThreatCache/Serving.antt =====
-- When the cache answers from its copy, when it calls the provider, and what it does on failure.
use flyto_warroom.Prelude.{
  ℕ, ◌+◌, ◌≤◌, ◌≡◌, ◌≢◌, ◌↔◌, ◌⊎◌, String, true, false, Option, none, some, List, arith,
}
use flyto_warroom.ThreatCache.{
  Source, source_name, Row, row_or_zero, has_copy, Store, Fetcher, err_store, get_or_fetch_cond,
}

module _ (store : Store) (hash_of : List ℕ → String) (grace : Source → ℕ) where
  -- What the store holds for the source and the key.
  abbrev pub found : Source → String → store.State → Option Row
  found source key s = store.get_cache s (source_name source) key

  -- The fetcher is called before the answer exactly when there is one, and no copy that is unexpired
  -- or has expired for less than the grace.
  pub fetched_inline_iff :
      (source : Source) (key : String) (ttl : ℕ) (fetcher : Option Fetcher) (now : ℕ)
      (s : store.State)
      → ((get_or_fetch_cond store hash_of grace source key ttl fetcher now s).calls ≡ 1) ↔ (
          (fetcher ≢ none)
          × ((has_copy (found source key s) ≡ false)
              ⊎ ((row_or_zero (found source key s)).expires_at ≤ now)
                × ((row_or_zero (found source key s)).expires_at + grace source ≤ now)))
  unfolding get_or_fetch_cond
  fetched_inline_iff source key ttl none now s = ground arith
  fetched_inline_iff source key ttl (some f) now s = ground arith

  -- With a copy at hand the answer is empty only if the store refused to be written: a failing
  -- provider, or none, is answered by the copy.
  pub copy_survives_failure :
      (source : Source) (key : String) (ttl : ℕ) (fetcher : Option Fetcher) (now : ℕ)
      (s : store.State)
      → has_copy (found source key s) ≡ true
      → (get_or_fetch_cond store hash_of grace source key ttl fetcher now s).result ≡ none
      → (get_or_fetch_cond store hash_of grace source key ttl fetcher now s).error ≡ some err_store
  unfolding get_or_fetch_cond
  copy_survives_failure source key ttl fetcher now s copy h = ground arith
