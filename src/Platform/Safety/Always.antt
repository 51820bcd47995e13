-- ===== src/Platform/Safety/Always.antt =====
-- Steps of the processes in any order, and what they keep.
use flyto_warroom.Prelude.{ℕ, ◌≡◌, refl, Option, none, some, List, [], ◌∷◌, get_elem?}
use flyto_warroom.Platform.{Db, Scan}
use flyto_warroom.Platform.Workers.{
  System, Op, op_create, op_verify, op_enqueue, op_delete_repository, op_claim_scan,
  op_complete_scan, op_fail_scan, op_claim_analysis, op_complete_analysis, op_fail_analysis,
  op_claim_report, op_complete_report, op_fail_report, step, run, on_db, end_scan, end_analysis,
  end_report, delete_repository_rows, drop_at,
}
use flyto_warroom.Platform.Safety.{IsSafe}
use flyto_warroom.Platform.Safety.Moves.{IsSafe-select}
use flyto_warroom.Platform.Safety.Steps.{held, IsSafeSystem, IsFresh, grow-IsSafe, touch-IsSafe}
use flyto_warroom.Platform.Growth.{create-keeps, verify-keeps, enqueue-keeps}
use flyto_warroom.Platform.Safety.Claims.{
  scan_claim-IsSafe, analysis_claim-IsSafe, report_claim-IsSafe,
}
use flyto_warroom.Platform.Safety.Ends.{
  complete_scan-IsSafe, fail_scan-IsSafe, complete_analysis-IsSafe, fail_analysis-IsSafe,
  complete_report-IsSafe, fail_report-IsSafe,
}

-- The identifiers that a step makes are new to the workers.
unfoldable pub IsNew : Op → System → Type 0
IsNew (op_create user repo id now) sys = IsFresh id sys
IsNew (op_verify user project m id now) sys = IsFresh id sys
IsNew (op_enqueue interval limit ids now) sys = (n : ℕ) → IsFresh (ids n) sys
IsNew o sys = Unit

unfoldable pub AllNew : List Op → System → Type 0
unfolding IsNew
AllNew [] sys = Unit
AllNew (o ∷ os) sys = IsNew o sys × AllNew os (step o sys)

end_scan-IsSafe :
    (o : Option Scan) (f : Scan → Db → Db) (k : ℕ) (sys : System)
    → ((s : Scan)
        → o ≡ some s
        → IsSafe
            (held (drop_at k sys.scanning))
            (held sys.analysing)
            (held sys.reporting)
            (f s sys.db).scans)
    → IsSafeSystem sys
    → IsSafeSystem (end_scan o f k sys)
unfolding end_scan
end_scan-IsSafe none f k sys ended safe = safe
end_scan-IsSafe (some s) f k sys ended safe = ended s refl

end_analysis-IsSafe :
    (o : Option Scan) (f : Scan → Db → Db) (k : ℕ) (sys : System)
    → ((s : Scan)
        → o ≡ some s
        → IsSafe
            (held sys.scanning)
            (held (drop_at k sys.analysing))
            (held sys.reporting)
            (f s sys.db).scans)
    → IsSafeSystem sys
    → IsSafeSystem (end_analysis o f k sys)
unfolding end_analysis
end_analysis-IsSafe none f k sys ended safe = safe
end_analysis-IsSafe (some s) f k sys ended safe = ended s refl

end_report-IsSafe :
    (o : Option Scan) (f : Scan → Db → Db) (k : ℕ) (sys : System)
    → ((s : Scan)
        → o ≡ some s
        → IsSafe
            (held sys.scanning)
            (held sys.analysing)
            (held (drop_at k sys.reporting))
            (f s sys.db).scans)
    → IsSafeSystem sys
    → IsSafeSystem (end_report o f k sys)
unfolding end_report
end_report-IsSafe none f k sys ended safe = safe
end_report-IsSafe (some s) f k sys ended safe = ended s refl

step-IsSafe : (o : Op) (sys : System) → IsNew o sys → IsSafeSystem sys → IsSafeSystem (step o sys)
unfolding step on_db delete_repository_rows IsNew
step-IsSafe (op_create user repo id now) sys new safe =
    create-keeps (IsSafe (held sys.scanning) (held sys.analysing) (held sys.reporting))
      (λ i. IsFresh i sys) now
      (grow-IsSafe (held sys.scanning) (held sys.analysing) (held sys.reporting) now) user repo id
      sys.db new safe
step-IsSafe (op_verify user project m id now) sys new safe =
    verify-keeps (IsSafe (held sys.scanning) (held sys.analysing) (held sys.reporting))
      (λ i. IsFresh i sys) now
      (grow-IsSafe (held sys.scanning) (held sys.analysing) (held sys.reporting) now)
      (touch-IsSafe (held sys.scanning) (held sys.analysing) (held sys.reporting) now) user project
      m id sys.db new safe
step-IsSafe (op_enqueue interval limit ids now) sys new safe =
    enqueue-keeps (IsSafe (held sys.scanning) (held sys.analysing) (held sys.reporting))
      (λ i. IsFresh i sys) now
      (grow-IsSafe (held sys.scanning) (held sys.analysing) (held sys.reporting) now) interval limit
      ids sys.db new safe
step-IsSafe (op_delete_repository repo) sys new safe =
    IsSafe-select (held sys.scanning) (held sys.analysing) (held sys.reporting) _ sys.db.scans safe
step-IsSafe (op_claim_scan now) sys new safe =
    scan_claim-IsSafe sys.scanning sys.analysing sys.reporting now sys.db safe
step-IsSafe (op_complete_scan k findings now) sys new safe =
    end_scan-IsSafe (get_elem? sys.scanning k) _ k sys
      (λ s e.
        complete_scan-IsSafe sys.scanning sys.analysing sys.reporting k s findings now sys.db e
          safe)
      safe
step-IsSafe (op_fail_scan k message now) sys new safe =
    end_scan-IsSafe (get_elem? sys.scanning k) _ k sys
      (λ s e.
        fail_scan-IsSafe sys.scanning sys.analysing sys.reporting k s message now sys.db e safe)
      safe
step-IsSafe op_claim_analysis sys new safe =
    analysis_claim-IsSafe sys.scanning sys.analysing sys.reporting sys.db safe
step-IsSafe (op_complete_analysis k paths evidence remediations now) sys new safe =
    end_analysis-IsSafe (get_elem? sys.analysing k) _ k sys
      (λ s e.
        complete_analysis-IsSafe sys.scanning sys.analysing sys.reporting k s paths evidence
          remediations now sys.db e safe)
      safe
step-IsSafe (op_fail_analysis k message) sys new safe =
    end_analysis-IsSafe (get_elem? sys.analysing k) _ k sys
      (λ s e.
        fail_analysis-IsSafe sys.scanning sys.analysing sys.reporting k s message sys.db e safe)
      safe
step-IsSafe op_claim_report sys new safe =
    report_claim-IsSafe sys.scanning sys.analysing sys.reporting sys.db safe
step-IsSafe (op_complete_report k r) sys new safe =
    end_report-IsSafe (get_elem? sys.reporting k) _ k sys
      (λ s e. complete_report-IsSafe sys.scanning sys.analysing sys.reporting k s r sys.db e safe)
      safe
step-IsSafe (op_fail_report k message) sys new safe =
    end_report-IsSafe (get_elem? sys.reporting k) _ k sys
      (λ s e. fail_report-IsSafe sys.scanning sys.analysing sys.reporting k s message sys.db e safe)
      safe

-- Whatever steps the processes take, in any order, from a safe state: identifiers of scans stay unique,
-- a repository has at most one scan that is queued or running, a scan is held by at most one scanner,
-- one analyst and one reporter, whose stage is then the running one, a scan's analysis leaves its
-- pending state only when the scan is complete, and its report only when the analysis is complete;
-- provided that the identifiers that the steps make are held by no worker.
pub run-IsSafe :
    (os : List Op) (sys : System) → AllNew os sys → IsSafeSystem sys → IsSafeSystem (run os sys)
unfolding run AllNew
run-IsSafe [] sys new safe = safe
run-IsSafe (o ∷ os) sys (n, new) safe = run-IsSafe os (step o sys) new (step-IsSafe o sys n safe)
