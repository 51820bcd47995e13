-- ===== src/Platform/Workers.antt =====
-- The processes around the database: the API, ce/scheduler-ce, the scan loop of ce/worker-ce
-- (runtime.go), ce/analysis-ce and ce/report-ce (main.go), as steps in any order. A claim hands a scan
-- to a worker, which gives it up when it completes or fails it; `k` says which of those held.
use flyto_warroom.Prelude.{
  ℕ, zero, suc, String, Bool, true, false, not, Option, none, some, List, [], ◌∷◌, get_elem?,
  select, any, ◌&&◌, str_eq,
}
use flyto_warroom.Platform.{Db, Scan, Finding, AttackPath, Evidence, Remediation, Report}
use flyto_warroom.Platform.Scans.{create_scan, enqueue_due, claim_scan, complete_scan, fail_scan}
use flyto_warroom.Platform.Stages.{
  claim_analysis, complete_analysis, fail_analysis, claim_report, complete_report, fail_report,
}
use flyto_warroom.Platform.Remedies.{queue_verification}

pub record System : Type 0 where
  pub db : Db
  pub scanning : List Scan
  pub analysing : List Scan
  pub reporting : List Scan

pub data Op : Type 0 where
  op_create : (user repo id : String) → (now : ℕ) → Op
  op_verify : (user project remediation id : String) → (now : ℕ) → Op
  op_enqueue : (interval limit : ℕ) → (ids : ℕ → String) → (now : ℕ) → Op
  op_delete_repository : (repo : String) → Op
  op_claim_scan : (now : ℕ) → Op
  op_complete_scan : (k : ℕ) → List Finding → (now : ℕ) → Op
  op_fail_scan : (k : ℕ) → (message : String) → (now : ℕ) → Op
  op_claim_analysis : Op
  op_complete_analysis :
      (k : ℕ) → List AttackPath → List Evidence → List Remediation → (now : ℕ) → Op
  op_fail_analysis : (k : ℕ) → (message : String) → Op
  op_claim_report : Op
  op_complete_report : (k : ℕ) → Report → Op
  op_fail_report : (k : ℕ) → (message : String) → Op

abbrev pub and_held : Option Scan → List Scan → List Scan
and_held none held = held
and_held (some s) held = s ∷ held

unfoldable pub drop_at : ℕ → List Scan → List Scan
drop_at k [] = []
drop_at zero (s ∷ ss) = ss
drop_at (suc k) (s ∷ ss) = s ∷ drop_at k ss

-- The rows that a repository's deletion takes along by `ON DELETE CASCADE`.
unfoldable pub delete_repository_rows : String → Db → Db
delete_repository_rows repo db = record db {
  repositories = select (λ r. not (str_eq r.id repo)) db.repositories;
  scans = select (λ s. not (str_eq s.repo_id repo)) db.scans;
  findings = select (λ f. not (str_eq f.repo_id repo)) db.findings;
  attack_paths = select (λ p. not (str_eq p.repo_id repo)) db.attack_paths;
  evidence = select (λ e. not (str_eq e.repo_id repo)) db.evidence;
  remediations = select (λ m. not (str_eq m.repo_id repo)) db.remediations;
  reports =
      select (λ q. not (any (λ s. str_eq s.repo_id repo && str_eq s.id q.scan_id) db.scans))
        db.reports;
}

unfoldable pub on_db : (Db → Db) → System → System
on_db f sys = record sys { db = f sys.db }

-- The scan loop drops the scan also where it could not be stored.
unfoldable pub end_scan : Option Scan → (Scan → Db → Db) → (k : ℕ) → System → System
unfolding drop_at
end_scan none f k sys = sys
end_scan (some s) f k sys = record sys { db = f s sys.db; scanning = drop_at k sys.scanning }

unfoldable pub end_analysis : Option Scan → (Scan → Db → Db) → (k : ℕ) → System → System
unfolding drop_at
end_analysis none f k sys = sys
end_analysis (some s) f k sys = record sys { db = f s sys.db; analysing = drop_at k sys.analysing }

unfoldable pub end_report : Option Scan → (Scan → Db → Db) → (k : ℕ) → System → System
unfolding drop_at
end_report none f k sys = sys
end_report (some s) f k sys = record sys { db = f s sys.db; reporting = drop_at k sys.reporting }

-- A completion that could not be committed is followed by the failure, with some message.
unfoldable pub or_failed_analysis : Db × Bool → Scan → Db
or_failed_analysis (db, true) s = db
or_failed_analysis (db, false) s = fail_analysis s.id "error" db

unfoldable pub or_failed_report : Db × Bool → Scan → Db
or_failed_report (db, true) s = db
or_failed_report (db, false) s = fail_report s.id "error" db

unfoldable pub step : Op → System → System
unfolding on_db end_scan end_analysis end_report or_failed_analysis or_failed_report
    delete_repository_rows
step (op_create user repo id now) sys = on_db (λ db. (create_scan user repo id now db).0) sys
step (op_verify user project m id now) sys =
    on_db (λ db. (queue_verification user project m id now db).0) sys
step (op_enqueue interval limit ids now) sys =
    on_db (λ db. (enqueue_due interval limit ids now db).0) sys
step (op_delete_repository repo) sys = on_db (delete_repository_rows repo) sys
step (op_claim_scan now) sys =
    let (db, s) = claim_scan now sys.db in
    record sys { db = db; scanning = and_held s sys.scanning }
step (op_complete_scan k findings now) sys =
    end_scan (get_elem? sys.scanning k) (λ s db. (complete_scan s findings now db).0) k sys
step (op_fail_scan k message now) sys =
    end_scan (get_elem? sys.scanning k) (λ s. fail_scan s message now) k sys
step op_claim_analysis sys =
    let (db, s) = claim_analysis sys.db in
    record sys { db = db; analysing = and_held s sys.analysing }
step (op_complete_analysis k paths evidence remediations now) sys =
    end_analysis (get_elem? sys.analysing k)
      (λ s db. or_failed_analysis (complete_analysis s paths evidence remediations now db) s) k sys
step (op_fail_analysis k message) sys =
    end_analysis (get_elem? sys.analysing k) (λ s. fail_analysis s.id message) k sys
step op_claim_report sys =
    let (db, s) = claim_report sys.db in
    record sys { db = db; reporting = and_held s sys.reporting }
step (op_complete_report k r) sys =
    end_report (get_elem? sys.reporting k) (λ s db. or_failed_report (complete_report s r db) s) k
      sys
step (op_fail_report k message) sys =
    end_report (get_elem? sys.reporting k) (λ s. fail_report s.id message) k sys

unfoldable pub run : List Op → System → System
unfolding step
run [] sys = sys
run (o ∷ os) sys = run os (step o sys)
