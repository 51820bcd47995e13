-- ===== src/Platform/Growth.antt =====
-- Scans that are queued: what a property of the table needs to survive `CreateScan`, the verification of
-- a remediation and the scheduler.
use flyto_warroom.Prelude.{
  ℕ, ◌+◌, ◌-◌, ◌≡◌, refl, String, Bool, true, false, Option, none, some, List, [], ◌∷◌, ◌++◌, arith,
  any, str_eq, ◌&&◌, Option-cases, inl, inr, if◌then◌else◌,
}
use mathlib.Core.Path.{subst}
use flyto_warroom.Platform.Remedies.{queue_verification, after_create, accept, set_trigger}
use flyto_warroom.Platform.Scans.{owns}
use flyto_warroom.Platform.{Db, Scan, Repository}
use flyto_warroom.Platform.Tables.{update, first}
use flyto_warroom.Platform.Scans.{
  new_scan, insert_scan, has_active, created_scan, create_for, create_scan, active_scan, repository,
  set_last_scan, Created, enqueue_each, enqueue_due, due_repositories, bounded_interval,
  bounded_limit, active_scan_of, created, not_created, or_unchanged,
}

pub some_eq {ℓ} : {A : Type ℓ} {x y : A} → some x ≡ some y → x ≡ y
some_eq e = ground arith

inserted :
    (full : Bool) (d db' : Db)
    → (if full then none else some d) ≡ some db'
    → (full ≡ false) × (d ≡ db')
inserted true d db' e = ground arith
inserted false d db' e = (refl, some_eq e)

-- A property of the scans that holds of one more: a new one of an identifier that is allowed.
module _ {ℓ} (P : List Scan → Type ℓ) (Allowed : String → Type 0) (now : ℕ)
    (grow : (id project repo trigger : String) (xs : List Scan)
      → Allowed id
      → any (λ t. str_eq t.id id) xs ≡ false
      → any (active_scan_of repo) xs ≡ false
      → P xs
      → P (xs ++ new_scan id project repo trigger now ∷ [])) where
  insert-keeps :
      (id project repo trigger : String) (db db' : Db)
      → Allowed id
      → insert_scan (new_scan id project repo trigger now) db ≡ some db'
      → P db.scans
      → P db'.scans
  unfolding insert_scan new_scan has_active
  insert-keeps id project repo trigger db db' ok e h =
      let (fine, same) = inserted _ _ db' e in
      subst (λ d. P d.scans) same
        (grow id project repo trigger db.scans ok (ground arith) (ground arith) h)

  created-keeps :
      (o : Option Db) (s : Scan) (db : Db)
      → ((db' : Db) → o ≡ some db' → P db'.scans)
      → P db.scans
      → P (created_scan o s db).0.scans
  unfolding created_scan set_last_scan
  created-keeps none s db keep h = h
  created-keeps (some db') s db keep h = keep db' refl

  for-keeps :
      (o : Option Scan) (r : Repository) (id : String) (db : Db)
      → Allowed id
      → P db.scans
      → P (create_for o r id now db).0.scans
  unfolding create_for
  for-keeps (some active) r id db ok h = h
  for-keeps none r id db ok h =
      created-keeps _ _ db (λ db' e. insert-keeps id r.project_id r.id "manual" db db' ok e h) h

  pub create-keeps :
      (user repo id : String) (db : Db)
      → Allowed id
      → P db.scans
      → P (create_scan user repo id now db).0.scans
  unfolding create_scan
  create-keeps user repo id db ok h = elim (Option-cases (repository db user repo)) [
    | inl e ↦ rw (e, create_scan) h
    | inr (r, e) ↦ rw (e, create_scan) (for-keeps (active_scan db repo) r id db ok h)
  ]

  each-keeps :
      (rs : List Repository) (ids : ℕ → String) (n : ℕ) (db db' : Db)
      → ((m : ℕ) → Allowed (ids m))
      → enqueue_each rs ids n now db ≡ some db'
      → P db.scans
      → P db'.scans
  unfolding enqueue_each set_last_scan
  each-keeps [] ids n db db' ok e h = subst (λ d. P d.scans) (some_eq e) h
  each-keeps (r ∷ rs) ids n db db' ok e h =
      let one = insert_scan (new_scan (ids n) r.project_id r.id "scheduled" now) db in
      elim (Option-cases one) [
        | inl q ↦ absurd (cc (rw (q, enqueue_each) at e))
        | inr (d, q) ↦
            each-keeps rs ids (n + 1) (set_last_scan r.id "queued" "" d) db' ok
              (rw (q, enqueue_each) at e)
              (insert-keeps (ids n) r.project_id r.id "scheduled" db d (ok n) q h)
      ]

  due-keeps :
      (rs : List Repository) (db : Db) (o : Option Db)
      → ((db' : Db) → o ≡ some db' → P db'.scans)
      → P db.scans
      → P (or_unchanged o rs db).0.scans
  unfolding or_unchanged
  due-keeps rs db none keep h = h
  due-keeps rs db (some db') keep h = keep db' refl

  pub enqueue-keeps :
      (interval limit : ℕ) (ids : ℕ → String) (db : Db)
      → ((m : ℕ) → Allowed (ids m))
      → P db.scans
      → P (enqueue_due interval limit ids now db).0.scans
  unfolding enqueue_due
  enqueue-keeps interval limit ids db ok h =
      let due = due_repositories db (now - bounded_interval interval) (bounded_limit limit) in
      due-keeps due db (enqueue_each due ids 0 now db) (λ db' e. each-keeps due ids 0 db db' ok e h)
        h

  -- `UPDATE ce_scans SET trigger_type`
  module _
      (touch : (p : Scan → Bool) (trigger : String) (xs : List Scan)
        → P xs
        → P (update p (λ s. record s { trigger_type = trigger }) xs)) where
    after-keeps :
        (r : Db × Created) (remediation : String) (time : ℕ)
        → P r.0.scans
        → P (after_create r remediation time).0.scans
    unfolding after_create accept set_trigger
    after-keeps (db, not_created e) remediation time h = h
    after-keeps (db, created s) remediation time h = touch _ "verification" db.scans h

    pub verify-keeps :
        (user project m id : String) (db : Db)
        → Allowed id
        → P db.scans
        → P (queue_verification user project m id now db).0.scans
    unfolding queue_verification
    verify-keeps user project m id db ok h =
        elim (Option-cases (
          first (λ q. str_eq q.id m && (str_eq q.project_id project && owns db user project))
            db.remediations)) [
              | inl e ↦ rw (e, queue_verification) h
              | inr (q, e) ↦
                  rw (e, queue_verification)
                    (after-keeps (create_scan user q.repo_id id now db) m now
                      (create-keeps user q.repo_id id db ok h))
            ]
