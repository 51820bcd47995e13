-- ===== src/ThreatCache/Renewal.antt =====
-- What a fetched answer and an invalidation leave for the next call.
use flyto_warroom.Prelude.{
  ℕ, ◌+◌, ◌-◌, ◌≤◌, ◌<◌, ◌≡◌, refl, sym, ap, ◌∙◌, String, Bool, true, false, Option, none, some,
  List, ◌∷◌, arith,
}
use mathlib.Core.Path.{subst}
use flyto_warroom.ThreatCache.{
  Source, source_name, Row, row_or_zero, has_copy, Store, Fetcher, fetch_body, ConditionalHints,
  Change, get_or_fetch_cond, Outcome, repeat, effective_ttl, invalidate, minute, answer, with_row,
  after_write, after_fetch, hints_or_none,
}

-- What a write gives back is read again, and the notes on hints and history do not touch the rows.
pub record StoreLaws (store : Store) : Type 0 where
  pub get_upserted :
      (s s' : store.State) (name key : String) (row : Row)
      → store.upsert_cache s name key row ≡ some s'
      → store.get_cache s' name key ≡ some row
  pub get_hinted :
      (s : store.State) (name key : String) (h : ConditionalHints) (t : ℕ) (b : Bool)
      → store.get_cache (store.set_cache_hints s name key h t b) name key
        ≡ store.get_cache s name key
  pub get_appended :
      (s : store.State) (name key : String) (c : Change)
      → store.get_cache (store.append_cache_history s name key c) name key
        ≡ store.get_cache s name key

module _ (store : Store) (laws : StoreLaws store) (hash_of : List ℕ → String)
    (grace : Source → ℕ) where
  on_row :
      Source
      → String
      → ℕ
      → Option Fetcher
      → ℕ
      → store.State
      → Option Row
      → Outcome store hash_of grace
  unfolding with_row
  on_row source key ttl fetcher now s found =
      with_row store hash_of grace found source key (effective_ttl store hash_of grace source ttl)
        fetcher now s

  serve_fresh :
      (source : Source) (key : String) (ttl : ℕ) (fetcher : Option Fetcher) (now : ℕ)
      (s : store.State) (row : Row)
      → has_copy (some row) ≡ true
      → now < row.expires_at
      → with_row store hash_of grace (some row) source key ttl fetcher now s
        ≡ answer store hash_of grace s (some (repeat row false)) none none 0
  unfolding with_row row_or_zero
  serve_fresh source key ttl fetcher now s row full fresh = ground arith

  -- A row with a body that has not expired is returned as it is: no call, no write, no error.
  fresh_row_served :
      (source : Source) (key : String) (ttl : ℕ) (fetcher : Option Fetcher) (now : ℕ)
      (s : store.State) (row : Row)
      → store.get_cache s (source_name source) key ≡ some row
      → has_copy (some row) ≡ true
      → now < row.expires_at
      → get_or_fetch_cond store hash_of grace source key ttl fetcher now s
        ≡ answer store hash_of grace s (some (repeat row false)) none none 0
  unfolding get_or_fetch_cond on_row
  fresh_row_served source key ttl fetcher now s row h full fresh =
      ap (on_row source key ttl fetcher now s) h
      ∙ serve_fresh source key _ fetcher now s row full fresh

  pub ServesStale : Outcome store hash_of grace → Row → Type 0
  ServesStale o row = (o.calls ≡ 0) × (o.result ≡ some (repeat row true))

  serve_stale :
      (source : Source) (key : String) (ttl : ℕ) (f : Fetcher) (now : ℕ) (s : store.State)
      (row : Row)
      → has_copy (some row) ≡ true
      → row.expires_at ≤ now
      → now < row.expires_at + grace source
      → ServesStale (with_row store hash_of grace (some row) source key ttl (some f) now s) row
  unfolding with_row row_or_zero ServesStale
  serve_stale source key ttl f now s row full le lt = ground arith

  after_invalidate :
      (source : Source) (key : String) (t : ℕ) (s s' : store.State) (row : Row)
      → store.get_cache s (source_name source) key ≡ some row
      → store.upsert_cache s (source_name source) key (record row { expires_at = t - minute })
        ≡ some s'
      → invalidate store hash_of grace source key t s ≡ s'
  unfolding invalidate
  after_invalidate source key t s s' row h w = rw (invalidate, h, w)

  -- Invalidating a row at `t` and calling with a fetcher from `t` on and before `t - 1 minute` plus the
  -- grace returns the same old copy, marked stale, without calling the provider first. (The row has a
  -- body, and its write succeeds.)
  pub invalidate-ServesStale :
      (source : Source) (key : String) (ttl : ℕ) (f : Fetcher) (t now : ℕ) (s s' : store.State)
      (row : Row)
      → store.get_cache s (source_name source) key ≡ some row
      → has_copy (some row) ≡ true
      → store.upsert_cache s (source_name source) key (record row { expires_at = t - minute })
        ≡ some s'
      → t ≤ now
      → now < t - minute + grace source
      → ServesStale
          (get_or_fetch_cond store hash_of grace source key ttl
            (some f)
            now
            (invalidate store hash_of grace source key t s))
          (record row { expires_at = t - minute })
  unfolding get_or_fetch_cond on_row has_copy
  invalidate-ServesStale source key ttl f t now s s' row h full w le lt =
      let e = after_invalidate source key t s s' row h w in
      subst
        (λ z.
          ServesStale
            (on_row source key ttl (some f) now z (store.get_cache z (source_name source) key))
            (record row { expires_at = t - minute }))
        (sym e)
        (subst
          (λ r.
            ServesStale (on_row source key ttl (some f) now s' r)
              (record row { expires_at = t - minute }))
          (sym (laws.get_upserted s s' _ key _ w))
          (serve_stale source key _ f now s' (record row { expires_at = t - minute }) full
            (omega arith) lt))

  -- What is left after the provider's body was written.
  row_after_write :
      (name key : String) (hints : ConditionalHints) (now ttl : ℕ) (prev : String) (body : List ℕ)
      (s s' : store.State) (row : Row)
      → store.get_cache s' name key ≡ some row
      → store.get_cache
          (after_write store hash_of grace (some s') name key hints now ttl prev body s).state
          name
          key
        ≡ some row
  unfolding after_write
  row_after_write name key hints now ttl prev body s s' row h =
      grind (arith, laws.get_hinted, laws.get_appended)

  -- The row that such a call leaves.
  after_fetching :
      (source : Source) (key : String) (ttl : ℕ) (f : Fetcher) (now : ℕ) (s s' : store.State)
      (b : ℕ) (bs : List ℕ) (hints : ConditionalHints)
      → store.get_cache s (source_name source) key ≡ none
      → ((h : ConditionalHints) → f h ≡ fetch_body (b ∷ bs) hints)
      → store.upsert_cache s (source_name source) key (record {
        body = b ∷ bs;
        fetched_at = now;
        expires_at = now + effective_ttl store hash_of grace source ttl;
        response_hash = hash_of (b ∷ bs);
      })
        ≡ some s'
      → store.get_cache
          (get_or_fetch_cond store hash_of grace source key ttl (some f) now s).state
          (source_name source)
          key
        ≡ some (record {
          body = b ∷ bs;
          fetched_at = now;
          expires_at = now + effective_ttl store hash_of grace source ttl;
          response_hash = hash_of (b ∷ bs);
        })
  unfolding get_or_fetch_cond on_row row_or_zero has_copy
  after_fetching source key ttl f now s s' b bs hints miss good w =
      let name = source_name source in
      let ttl_used = effective_ttl store hash_of grace source ttl in
      let row : Row = record {
        body = b ∷ bs;
        fetched_at = now;
        expires_at = now + ttl_used;
        response_hash = hash_of (b ∷ bs);
      } in
      let written =
        row_after_write name key hints now ttl_used "" (b ∷ bs) s s' row
          (laws.get_upserted s s' name key row w) in
      let fetched =
        subst
          (λ u.
            store.get_cache
              (after_write store hash_of grace u name key hints now ttl_used "" (b ∷ bs) s).state
              name key
            ≡ some row)
          (sym w) written in
      let answered =
        subst
          (λ a.
            store.get_cache
              (after_fetch store hash_of grace a name key now ttl_used (row_or_zero none) false
                s).state
              name key
            ≡ some row)
          (sym (good (hints_or_none store hash_of grace (store.get_cache_hints s name key))))
          fetched in
      subst
        (λ r. store.get_cache (on_row source key ttl (some f) now s r).state name key ≡ some row)
        (sym miss) answered

  -- With a store that reads back what it has written: after a call that found no row, got a body that
  -- is not empty from the provider and could write it, a call before the expiry returns that body from
  -- the store, calls no provider and changes nothing.
  pub fetched_then_served :
      (source : Source) (key : String) (ttl ttl' : ℕ) (f : Fetcher) (fetcher' : Option Fetcher)
      (now later : ℕ) (s s' : store.State) (b : ℕ) (bs : List ℕ) (hints : ConditionalHints)
      → store.get_cache s (source_name source) key ≡ none
      → ((h : ConditionalHints) → f h ≡ fetch_body (b ∷ bs) hints)
      → store.upsert_cache s (source_name source) key (record {
        body = b ∷ bs;
        fetched_at = now;
        expires_at = now + effective_ttl store hash_of grace source ttl;
        response_hash = hash_of (b ∷ bs);
      })
        ≡ some s'
      → later < now + effective_ttl store hash_of grace source ttl
      → let after = (get_or_fetch_cond store hash_of grace source key ttl (some f) now s).state in
        get_or_fetch_cond store hash_of grace source key ttl' fetcher' later after
        ≡ answer store hash_of grace after
            (some (
              repeat
                (record {
                  body = b ∷ bs;
                  fetched_at = now;
                  expires_at = now + effective_ttl store hash_of grace source ttl;
                  response_hash = hash_of (b ∷ bs);
                })
                false))
            none
            none
            0
  unfolding has_copy
  fetched_then_served source key ttl ttl' f fetcher' now later s s' b bs hints miss good w early =
      fresh_row_served source key ttl' fetcher' later _ _
        (after_fetching source key ttl f now s s' b bs hints miss good w) refl early
