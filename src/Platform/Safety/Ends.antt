-- ===== src/Platform/Safety/Ends.antt =====
-- What a worker does with a scan that it holds: completing or failing it.
use flyto_warroom.Prelude.{
  ℕ, ◌≡◌, ◌≢◌, refl, sym, String, true, false, Option, none, some, List, [], ◌∷◌, arith, All,
  get_elem?,
}
use mathlib.Core.Path.{subst}
use flyto_warroom.Platform.{
  Db, Scan, Finding, AttackPath, Evidence, Remediation, Report, ScanStatus, complete, failed,
  StageStatus, stage_pending, stage_complete, stage_failed,
}
use flyto_warroom.Platform.Scans.{
  set_last_scan, insert_findings, complete_scan, completed, map_of_scan, fail_scan, finish_scan,
  is_active,
}
use flyto_warroom.Platform.Stages.{set_analysis, set_report}
use flyto_warroom.Platform.Workers.{drop_at}
use flyto_warroom.Platform.Safety.{Fits}
use flyto_warroom.Platform.Safety.Moves.{IsSafe-update}
use flyto_warroom.Platform.Workers.{or_failed_analysis, or_failed_report}
use flyto_warroom.Platform.Stages.{
  put_path, put_evidence, put_remediation, put_report, put_all, and_put, finish_analysis,
  finish_report, complete_analysis, complete_report, fail_analysis, fail_report,
  verify_remediations,
}
use flyto_warroom.Platform.Safety.Moves.{IsSafe-fewer}
use flyto_warroom.Platform.Safety.Steps.{held}
use flyto_warroom.Platform.Stages.{path_of, evidence_of, remediation_of, report_of}
use flyto_warroom.Platform.Inserts.{scan_rows, analysis_rows, report_rows}
use flyto_warroom.Platform.Safety.Claims.{
  Safe, held-drop_self, held-drop_other, held-drop-le, fit_finished, fit_analysis_ended,
  fit_report_ended,
}

All-Unit : (id : String) (xs : List Scan) → All {0, 0} (λ x. x.id ≡ id → Unit) xs
All-Unit id [] = tt
All-Unit id (x ∷ xs) = (λ q. tt, All-Unit id xs)

active_ended :
    (st now : ScanStatus) → is_active st ≡ true → is_active st ≡ false → is_active now ≡ true
active_ended st now on off = absurd (cc (on, off))

module _ (sa an re : List Scan) where
  finish-IsSafe :
      (k : ℕ) (s : Scan) (st : ScanStatus) (message : String) (now : ℕ) (db : Db)
      → get_elem? sa k ≡ some s
      → is_active st ≡ false
      → Safe sa an re db.scans
      → Safe (drop_at k sa) an re (finish_scan s.id st message now db).scans
  unfolding finish_scan
  finish-IsSafe k s st message now db e ended safe =
      IsSafe-update (held sa) (held an) (held re) (λ (x : Scan). Unit) (held (drop_at k sa))
        (held an) (held re) s.id _ db.scans (λ x. refl) (λ x. refl)
        (λ x same c on. active_ended st x.status on ended)
        (λ x same c h.
          fit_finished (held (drop_at k sa) s.id) _ _ x st message now
            (subst (λ n. Fits n (held an s.id) (held re s.id) x) (sym (held-drop_self sa k s e)) h))
        (λ j ne. (held-drop_other sa k s j e ne, refl, refl)) (All-Unit s.id db.scans) safe

  analysis-IsSafe :
      (k : ℕ) (s : Scan) (st : StageStatus) (message : String) (db : Db)
      → get_elem? an k ≡ some s
      → st ≢ stage_pending
      → Safe sa an re db.scans
      → Safe sa (drop_at k an) re (set_analysis s.id st message db).scans
  unfolding set_analysis
  analysis-IsSafe k s st message db e ended safe =
      IsSafe-update (held sa) (held an) (held re) (λ (x : Scan). Unit) (held sa)
        (held (drop_at k an)) (held re) s.id _ db.scans (λ x. refl) (λ x. refl) (λ x same c on. on)
        (λ x same c h.
          fit_analysis_ended _ (held (drop_at k an) s.id) _ x st message
            (subst (λ n. Fits (held sa s.id) n (held re s.id) x) (sym (held-drop_self an k s e)) h))
        (λ j ne. (refl, held-drop_other an k s j e ne, refl)) (All-Unit s.id db.scans) safe

  report-IsSafe :
      (k : ℕ) (s : Scan) (st : StageStatus) (message : String) (db : Db)
      → get_elem? re k ≡ some s
      → Safe sa an re db.scans
      → Safe sa an (drop_at k re) (set_report s.id st message db).scans
  unfolding set_report
  report-IsSafe k s st message db e safe =
      IsSafe-update (held sa) (held an) (held re) (λ (x : Scan). Unit) (held sa) (held an)
        (held (drop_at k re)) s.id _ db.scans (λ x. refl) (λ x. refl) (λ x same c on. on)
        (λ x same c h.
          fit_report_ended _ _ (held (drop_at k re) s.id) x st message
            (subst (λ n. Fits (held sa s.id) (held an s.id) n x) (sym (held-drop_self re k s e)) h))
        (λ j ne. (refl, refl, held-drop_other re k s j e ne)) (All-Unit s.id db.scans) safe

  completed-IsSafe :
      (o : Option Db) (k : ℕ) (s : Scan) (now : ℕ) (db : Db)
      → ((db' : Db) → o ≡ some db' → db'.scans ≡ db.scans)
      → get_elem? sa k ≡ some s
      → Safe sa an re db.scans
      → Safe (drop_at k sa) an re (completed o s now db).0.scans
  unfolding completed
  completed-IsSafe none k s now db keeps e safe =
      IsSafe-fewer (held sa) (held an) (held re) (held (drop_at k sa)) (held an) (held re) db.scans
        (λ j. (held-drop-le sa k j, omega arith, omega arith)) safe
  completed-IsSafe (some db') k s now db keeps e safe =
      finish-IsSafe k s complete "" now db' e refl
        (subst (Safe sa an re) (sym (keeps db' refl)) safe)

  pub complete_scan-IsSafe :
      (k : ℕ) (s : Scan) (findings : List Finding) (now : ℕ) (db : Db)
      → get_elem? sa k ≡ some s
      → Safe sa an re db.scans
      → Safe (drop_at k sa) an re (complete_scan s findings now db).0.scans
  unfolding complete_scan
  complete_scan-IsSafe k s findings now db e safe =
      completed-IsSafe (insert_findings (map_of_scan s findings) db) k s now db
        (scan_rows s findings db) e safe

  pub fail_scan-IsSafe :
      (k : ℕ) (s : Scan) (message : String) (now : ℕ) (db : Db)
      → get_elem? sa k ≡ some s
      → Safe sa an re db.scans
      → Safe (drop_at k sa) an re (fail_scan s message now db).scans
  unfolding fail_scan set_last_scan
  fail_scan-IsSafe k s message now db e safe = finish-IsSafe k s failed message now db e refl safe

  analysed-IsSafe :
      (o : Option Db) (k : ℕ) (s : Scan) (now : ℕ) (db : Db)
      → ((db' : Db) → o ≡ some db' → db'.scans ≡ db.scans)
      → get_elem? an k ≡ some s
      → Safe sa an re db.scans
      → Safe sa (drop_at k an) re (or_failed_analysis (finish_analysis o s now db) s).scans
  unfolding finish_analysis or_failed_analysis fail_analysis verify_remediations
  analysed-IsSafe none k s now db keeps e safe =
      analysis-IsSafe k s stage_failed "error" db e (λ q. absurd (cc q)) safe
  analysed-IsSafe (some db') k s now db keeps e safe =
      analysis-IsSafe k s stage_complete "" (verify_remediations s now db') e (λ q. absurd (cc q))
        (subst (Safe sa an re) (sym (keeps db' refl)) safe)

  pub complete_analysis-IsSafe :
      (k : ℕ) (s : Scan) (paths : List AttackPath) (evidence : List Evidence)
      (remediations : List Remediation) (now : ℕ) (db : Db)
      → get_elem? an k ≡ some s
      → Safe sa an re db.scans
      → Safe sa
          (drop_at k an)
          re
          (or_failed_analysis (complete_analysis s paths evidence remediations now db) s).scans
  unfolding complete_analysis
  complete_analysis-IsSafe k s paths evidence remediations now db e safe =
      let after_paths = put_all (λ p. put_path (path_of s now p)) paths db in
      let after_evidence = and_put after_paths (λ g. put_evidence (evidence_of s now g)) evidence in
      analysed-IsSafe
        (and_put after_evidence (λ m. put_remediation (remediation_of s m) now) remediations) k s
        now db (analysis_rows s paths evidence remediations now db) e safe

  pub fail_analysis-IsSafe :
      (k : ℕ) (s : Scan) (message : String) (db : Db)
      → get_elem? an k ≡ some s
      → Safe sa an re db.scans
      → Safe sa (drop_at k an) re (fail_analysis s.id message db).scans
  unfolding fail_analysis
  fail_analysis-IsSafe k s message db e safe =
      analysis-IsSafe k s stage_failed message db e (λ q. absurd (cc q)) safe

  reported-IsSafe :
      (o : Option Db) (k : ℕ) (s : Scan) (db : Db)
      → ((db' : Db) → o ≡ some db' → db'.scans ≡ db.scans)
      → get_elem? re k ≡ some s
      → Safe sa an re db.scans
      → Safe sa an (drop_at k re) (or_failed_report (finish_report o s db) s).scans
  unfolding finish_report or_failed_report fail_report
  reported-IsSafe none k s db keeps e safe = report-IsSafe k s stage_failed "error" db e safe
  reported-IsSafe (some db') k s db keeps e safe =
      report-IsSafe k s stage_complete "" db' e (subst (Safe sa an re) (sym (keeps db' refl)) safe)

  pub complete_report-IsSafe :
      (k : ℕ) (s : Scan) (r : Report) (db : Db)
      → get_elem? re k ≡ some s
      → Safe sa an re db.scans
      → Safe sa an (drop_at k re) (or_failed_report (complete_report s r db) s).scans
  unfolding complete_report
  complete_report-IsSafe k s r db e safe =
      reported-IsSafe (put_report (report_of s r) db) k s db (report_rows (report_of s r) db) e safe

  pub fail_report-IsSafe :
      (k : ℕ) (s : Scan) (message : String) (db : Db)
      → get_elem? re k ≡ some s
      → Safe sa an re db.scans
      → Safe sa an (drop_at k re) (fail_report s.id message db).scans
  unfolding fail_report
  fail_report-IsSafe k s message db e safe = report-IsSafe k s stage_failed message db e safe
