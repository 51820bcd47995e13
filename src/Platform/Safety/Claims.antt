-- ===== src/Platform/Safety/Claims.antt =====
-- Claims, and what a worker does with a scan that it holds.
use flyto_warroom.Prelude.{
  ℕ, zero, suc, ◌≤◌, ◌≡◌, ◌≢◌, refl, sym, ap, ◌∙◌, String, true, Option, none, some, List, [], ◌∷◌,
  arith, select, eq_iff, get_elem?, leb,
}
use mathlib.Core.Path.{subst}
use mathlib.Core.List.{Memᴰ}
use flyto_warroom.Platform.{
  Db, Scan, ScanStatus, queued, running, complete, StageStatus, stage_pending, stage_running,
  stage_complete,
}
use flyto_warroom.Platform.Tables.{earliest, earliest-mem, earliest-some}
use flyto_warroom.Platform.Scans.{claim, claim_scan, is_queued, is_active}
use flyto_warroom.Platform.Stages.{
  claim_for, claim_analysis, claim_report, set_analysis, set_report, awaits_analysis, awaits_report,
  completed_first,
}
use flyto_warroom.Platform.Workers.{drop_at, and_held}
use flyto_warroom.Platform.Safety.{Fits, IsSafe, unique_row}
use flyto_warroom.Platform.Safety.Moves.{IsSafe-update}
use flyto_warroom.Platform.Safety.Steps.{held}
use flyto_warroom.Platform.Growth.{some_eq}

held_self : (s : Scan) (ss : List Scan) → held (s ∷ ss) s.id ≡ suc (held ss s.id)
unfolding select
held_self s ss = ground (arith, eq_iff s.id s.id)

held_other : (s : Scan) (ss : List Scan) (j : String) → j ≢ s.id → held (s ∷ ss) j ≡ held ss j
unfolding select
held_other s ss j ne = ground (arith, eq_iff s.id j)

pub held-drop_self :
    (ss : List Scan) (k : ℕ) (s : Scan)
    → get_elem? ss k ≡ some s
    → suc (held (drop_at k ss) s.id) ≡ held ss s.id
unfolding drop_at select
held-drop_self [] k s e = ground arith
held-drop_self (t ∷ ss) zero s e =
    sym (subst (λ x. held (t ∷ ss) x.id ≡ suc (held ss x.id)) (some_eq e) (held_self t ss))
held-drop_self (t ∷ ss) (suc k) s e = ground (arith, held-drop_self ss k s e)

pub held-drop_other :
    (ss : List Scan) (k : ℕ) (s : Scan) (j : String)
    → get_elem? ss k ≡ some s
    → j ≢ s.id
    → held (drop_at k ss) j ≡ held ss j
unfolding drop_at select
held-drop_other [] k s j e ne = ground arith
held-drop_other (t ∷ ss) zero s j e ne =
    sym (held_other t ss j (λ q. ne (q ∙ ap (λ x. x.id) (some_eq e))))
held-drop_other (t ∷ ss) (suc k) s j e ne = ground (arith, held-drop_other ss k s j e ne)

pub held-drop-le : (ss : List Scan) (k : ℕ) (j : String) → held (drop_at k ss) j ≤ held ss j
unfolding drop_at select
held-drop-le [] k j = omega arith
held-drop-le (t ∷ ss) zero j = ground arith
held-drop-le (t ∷ ss) (suc k) j = ground (arith, held-drop-le ss k j)

pub fit_claimed :
    (n b c : ℕ) (x : Scan) (now : ℕ)
    → x.status ≡ queued
    → Fits n b c x
    → Fits (suc n) b c (record x { status = running; started_at = some now })
fit_claimed n b c x now q h = ground (arith, h)

pub fit_finished :
    (n b c : ℕ) (x : Scan) (st : ScanStatus) (message : String) (now : ℕ)
    → Fits (suc n) b c x
    → Fits n b c (record x { status = st; completed_at = some now; error = message })
fit_finished n b c x st message now h = ground (arith, h)

pub fit_analysis_claimed :
    (a n c : ℕ) (x : Scan)
    → x.status ≡ complete
    → x.analysis_status ≡ stage_pending
    → Fits a n c x
    → Fits a (suc n) c (record x { analysis_status = stage_running; analysis_error = "" })
fit_analysis_claimed a n c x q p h = ground (arith, h)

pub fit_analysis_ended :
    (a n c : ℕ) (x : Scan) (st : StageStatus) (message : String)
    → Fits a (suc n) c x
    → Fits a n c (record x { analysis_status = st; analysis_error = message })
fit_analysis_ended a n c x st message h = ground (arith, h)

pub fit_report_claimed :
    (a b n : ℕ) (x : Scan)
    → x.analysis_status ≡ stage_complete
    → x.report_status ≡ stage_pending
    → Fits a b n x
    → Fits a b (suc n) (record x { report_status = stage_running; report_error = "" })
fit_report_claimed a b n x q p h = ground (arith, h)

pub fit_report_ended :
    (a b n : ℕ) (x : Scan) (st : StageStatus) (message : String)
    → Fits a b (suc n) x
    → Fits a b n (record x { report_status = st; report_error = message })
fit_report_ended a b n x st message h = ground (arith, h)

queued_is : (s : Scan) → is_queued s.status ≡ true → s.status ≡ queued
queued_is s h = ground arith

awaiting_analysis :
    (s : Scan)
    → awaits_analysis s ≡ true
    → (s.status ≡ complete) × (s.analysis_status ≡ stage_pending)
awaiting_analysis s h = ground arith

awaiting_report :
    (s : Scan)
    → awaits_report s ≡ true
    → (s.analysis_status ≡ stage_complete) × (s.report_status ≡ stage_pending)
awaiting_report s h = ground arith

module _ (sa an re : List Scan) where
  abbrev pub Safe : List Scan → Type 0
  Safe xs = IsSafe (held sa) (held an) (held re) xs

  claim-IsSafe :
      (o : Option Scan) (now : ℕ) (db : Db)
      → ((s : Scan) → o ≡ some s → Memᴰ s db.scans × (s.status ≡ queued))
      → Safe db.scans
      → IsSafe (held (and_held (claim o now db).1 sa)) (held an) (held re) (claim o now db).0.scans
  unfolding claim
  claim-IsSafe none now db found safe = safe
  claim-IsSafe (some s) now db found safe =
      let start : Scan → Scan = λ x. record x { status = running; started_at = some now } in
      let (m, q) = found s refl in
      IsSafe-update (held sa) (held an) (held re) (λ x. x ≡ s) (held (start s ∷ sa)) (held an)
        (held re) s.id _ db.scans (λ x. refl) (λ x. refl)
        (λ x e same on. ap (λ z. is_active z.status) same ∙ ap is_active q)
        (λ x e same h.
          subst
            (λ n.
              Fits n (held an s.id) (held re s.id)
                (record x { status = running; started_at = some now }))
            (sym (held_self (start s) sa))
            (fit_claimed (held sa s.id) _ _ x now (ap (λ z. z.status) same ∙ q) h))
        (λ j ne. (held_other (start s) sa j ne, refl, refl)) (unique_row db.scans s safe.unique m)
        safe

  -- A row of the table that a stage's claim selects.
  claim_analysis-IsSafe :
      (o : Option Scan) (db : Db)
      → ((s : Scan)
          → o ≡ some s
          → Memᴰ s db.scans × (s.status ≡ complete) × (s.analysis_status ≡ stage_pending))
      → Safe db.scans
      → let r = claim_for o (λ id. set_analysis id stage_running "") db in
        IsSafe (held sa) (held (and_held r.1 an)) (held re) r.0.scans
  unfolding claim_for set_analysis
  claim_analysis-IsSafe none db found safe = safe
  claim_analysis-IsSafe (some s) db found safe =
      let (m, q, p) = found s refl in
      IsSafe-update (held sa) (held an) (held re) (λ x. x ≡ s) (held sa) (held (s ∷ an)) (held re)
        s.id _ db.scans (λ x. refl) (λ x. refl) (λ x e same on. on)
        (λ x e same h.
          subst
            (λ n.
              Fits (held sa s.id) n (held re s.id)
                (record x { analysis_status = stage_running; analysis_error = "" }))
            (sym (held_self s an))
            (fit_analysis_claimed _ (held an s.id) _ x (ap (λ z. z.status) same ∙ q)
              (ap (λ z. z.analysis_status) same ∙ p) h))
        (λ j ne. (refl, held_other s an j ne, refl)) (unique_row db.scans s safe.unique m) safe

  claim_report-IsSafe :
      (o : Option Scan) (db : Db)
      → ((s : Scan)
          → o ≡ some s
          → Memᴰ s db.scans
            × (s.analysis_status ≡ stage_complete)
            × (s.report_status ≡ stage_pending))
      → Safe db.scans
      → let r = claim_for o (λ id. set_report id stage_running "") db in
        IsSafe (held sa) (held an) (held (and_held r.1 re)) r.0.scans
  unfolding claim_for set_report
  claim_report-IsSafe none db found safe = safe
  claim_report-IsSafe (some s) db found safe =
      let (m, q, p) = found s refl in
      IsSafe-update (held sa) (held an) (held re) (λ x. x ≡ s) (held sa) (held an) (held (s ∷ re))
        s.id _ db.scans (λ x. refl) (λ x. refl) (λ x e same on. on)
        (λ x e same h.
          subst
            (λ n.
              Fits (held sa s.id) (held an s.id) n
                (record x { report_status = stage_running; report_error = "" }))
            (sym (held_self s re))
            (fit_report_claimed _ _ (held re s.id) x (ap (λ z. z.analysis_status) same ∙ q)
              (ap (λ z. z.report_status) same ∙ p) h))
        (λ j ne. (refl, refl, held_other s re j ne)) (unique_row db.scans s safe.unique m) safe

  pub scan_claim-IsSafe :
      (now : ℕ) (db : Db)
      → Safe db.scans
      → IsSafe
          (held (and_held (claim_scan now db).1 sa))
          (held an)
          (held re)
          (claim_scan now db).0.scans
  unfolding claim_scan
  scan_claim-IsSafe now db safe =
      let o = earliest (λ s. is_queued s.status) (λ s t. leb s.created_at t.created_at) db.scans in
      claim-IsSafe o now db
        (λ s e. (
          earliest-mem _ _ db.scans s e,
          queued_is s (earliest-some (λ s. is_queued s.status) _ db.scans s e),
        ))
        safe

  pub analysis_claim-IsSafe :
      (db : Db)
      → Safe db.scans
      → IsSafe
          (held sa)
          (held (and_held (claim_analysis db).1 an))
          (held re)
          (claim_analysis db).0.scans
  unfolding claim_analysis
  analysis_claim-IsSafe db safe =
      let o = earliest awaits_analysis completed_first db.scans in
      claim_analysis-IsSafe o db
        (λ s e.
          let (q, p) = awaiting_analysis s (earliest-some awaits_analysis _ db.scans s e) in
          (earliest-mem _ _ db.scans s e, q, p))
        safe

  pub report_claim-IsSafe :
      (db : Db)
      → Safe db.scans
      → IsSafe
          (held sa)
          (held an)
          (held (and_held (claim_report db).1 re))
          (claim_report db).0.scans
  unfolding claim_report
  report_claim-IsSafe db safe =
      let o = earliest awaits_report completed_first db.scans in
      claim_report-IsSafe o db
        (λ s e.
          let (q, p) = awaiting_report s (earliest-some awaits_report _ db.scans s e) in
          (earliest-mem _ _ db.scans s e, q, p))
        safe
