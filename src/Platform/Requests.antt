-- ===== src/Platform/Requests.antt =====
-- Requests for a scan: `CreateScan` and the scheduler's tick.
use flyto_warroom.Prelude.{
  ℕ, suc, ◌+◌, ◌-◌, ◌≤◌, ◌≡◌, refl, ap, String, Bool, true, false, Option, none, some, List, [],
  ◌∷◌, ◌++◌, arith, select, length, str_eq, ◌&&◌, Option-cases, inl, inr,
}
use flyto_warroom.Platform.{Db, Scan, Repository, err_not_found}
use flyto_warroom.Platform.Tables.{
  first, first-some, first-none, length-take-le, sort_by, nulls_first,
}
use flyto_warroom.Platform.Scans.{
  created, not_created, create_scan, create_for, repository, active_scan, active_scan_of, owns,
  has_active, enqueue_due, enqueue_each, or_unchanged, due_repositories, bounded_limit,
  bounded_interval, is_due, insert_scan, new_scan, set_last_scan,
}
use flyto_warroom.Platform.Growth.{some_eq}

length-snoc {ℓ} : {A : Type ℓ} (xs : List A) (x : A) → length (xs ++ x ∷ []) ≡ suc (length xs)
length-snoc [] x = omega arith
length-snoc (y ∷ ys) x = omega (arith, length-snoc ys x)

first-absent {ℓ} :
    {A : Type ℓ} (p : A → Bool) (xs : List A) → ((x : A) → p x ≡ false) → first p xs ≡ none
unfolding first
first-absent p [] h = refl
first-absent p (x ∷ xs) h = ground (arith, h x, first-absent p xs h)

-- A user who owns no project gets `ErrNotFound` for any repository, and nothing is stored.
pub stranger_gets_nothing :
    (user repo id : String) (now : ℕ) (db : Db)
    → ((project : String) → owns db user project ≡ false)
    → create_scan user repo id now db ≡ (db, not_created err_not_found)
unfolding create_scan repository
stranger_gets_nothing user repo id now db stranger =
    rw
      (
        first-absent (λ r. str_eq r.id repo && owns db user r.project_id) db.repositories
            (λ r. ground (arith, stranger r.project_id)),
        create_scan,
      )
      refl

-- While a scan of the user's repository is queued or running, `CreateScan` stores nothing and answers
-- with a queued or running scan of that repository.
pub same_scan_again :
    (user repo id : String) (now : ℕ) (db : Db) (r : Repository)
    → repository db user repo ≡ some r
    → has_active db repo ≡ true
    → (s : Scan) × (create_scan user repo id now db ≡ (db, created s))
      × (active_scan_of repo s ≡ true)
unfolding create_scan has_active active_scan create_for
same_scan_again user repo id now db r e busy = elim (Option-cases (active_scan db repo)) [
  | inl q ↦ absurd (cc (busy, first-none (active_scan_of repo) db.scans q))
  | inr (s, q) ↦ (s, rw (e, q, create_scan) refl, first-some (active_scan_of repo) db.scans s q)
]

bounded_limit-le : (limit : ℕ) → bounded_limit limit ≤ 100
unfolding bounded_limit
bounded_limit-le limit = ground arith

insert-length :
    (s : Scan) (db db' : Db)
    → insert_scan s db ≡ some db'
    → length db'.scans ≡ suc (length db.scans)
unfolding insert_scan
insert-length s db db' e = ground (arith, length-snoc db.scans s)

each-length :
    (rs : List Repository) (ids : ℕ → String) (n now : ℕ) (db db' : Db)
    → enqueue_each rs ids n now db ≡ some db'
    → length db'.scans ≡ length db.scans + length rs
unfolding enqueue_each set_last_scan
each-length [] ids n now db db' e = omega (arith, ap (λ d. length d.scans) (some_eq e))
each-length (r ∷ rs) ids n now db db' e =
    elim (Option-cases (insert_scan (new_scan (ids n) r.project_id r.id "scheduled" now) db)) [
      | inl q ↦ absurd (cc (rw (q, enqueue_each) at e))
      | inr (d, q) ↦
          let rest =
            each-length rs ids (n + 1) now (set_last_scan r.id "queued" "" d) db'
              (rw (q, enqueue_each) at e) in
          omega
            (arith, rest, insert-length (new_scan (ids n) r.project_id r.id "scheduled" now) db d q)
    ]

or_unchanged-length :
    (o : Option Db) (due : List Repository) (db : Db)
    → ((db' : Db) → o ≡ some db' → length db'.scans ≡ length db.scans + length due)
    → length (or_unchanged o due db).0.scans ≤ length db.scans + length due
unfolding or_unchanged
or_unchanged-length none due db h = omega arith
or_unchanged-length (some d) due db h = omega (arith, h d refl)

-- Whatever limit it is given, a tick of the scheduler queues at most 100 scans.
pub tick_queues_few :
    (interval limit : ℕ) (ids : ℕ → String) (now : ℕ) (db : Db)
    → length (enqueue_due interval limit ids now db).0.scans ≤ length db.scans + 100
unfolding enqueue_due due_repositories
tick_queues_few interval limit ids now db =
    let due = due_repositories db (now - bounded_interval interval) (bounded_limit limit) in
    let few = length-take-le (bounded_limit limit) (
      sort_by (λ r q. nulls_first r.last_scanned_at r.created_at q.last_scanned_at q.created_at)
        (select (is_due db (now - bounded_interval interval)) db.repositories)) in
    omega (
      arith,
      few,
      bounded_limit-le limit,
      or_unchanged-length (enqueue_each due ids 0 now db) due db
          (λ d e. each-length due ids 0 now db d e),
    )
