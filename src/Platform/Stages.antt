-- ===== src/Platform/Stages.antt =====
-- workflow.go: the stages after a scan. A complete scan is claimed for analysis, an analysed one for its
-- report; each claim takes the scan that was completed first.
use flyto_warroom.Prelude.{
  ℕ, String, Bool, true, false, not, ◌&&◌, ◌||◌, Option, none, some, List, [], ◌∷◌, ◌++◌, any,
  select, if◌then◌else◌, str_eq, trim_space,
}
use flyto_warroom.Platform.{
  Db, Scan, Finding, AttackPath, Evidence, Remediation, Report, ScanStatus, complete, StageStatus,
  stage_pending, stage_running, stage_complete, stage_failed, proposed, resolved, not_run,
  verification_queued, verified_fixed, still_present, VerificationStatus,
}
use flyto_warroom.Platform.Tables.{first, earliest, update, no_later}

abbrev pub is_complete : ScanStatus → Bool
is_complete complete = true
is_complete _ = false

abbrev pub is_stage_pending : StageStatus → Bool
is_stage_pending stage_pending = true
is_stage_pending _ = false

abbrev pub is_stage_complete : StageStatus → Bool
is_stage_complete stage_complete = true
is_stage_complete _ = false

abbrev pub awaits_analysis : Scan → Bool
awaits_analysis s = is_complete s.status && is_stage_pending s.analysis_status

abbrev pub awaits_report : Scan → Bool
awaits_report s =
    is_complete s.status
    && (is_stage_complete s.analysis_status && is_stage_pending s.report_status)

abbrev pub completed_first : Scan → Scan → Bool
completed_first s t = no_later s.completed_at t.completed_at

unfoldable pub set_analysis : (id : String) → StageStatus → (message : String) → Db → Db
set_analysis id st message db = record db {
  scans =
      update (λ t. str_eq t.id id)
        (λ t. record t { analysis_status = st; analysis_error = message }) db.scans;
}

unfoldable pub set_report : (id : String) → StageStatus → (message : String) → Db → Db
set_report id st message db = record db {
  scans =
      update (λ t. str_eq t.id id) (λ t. record t { report_status = st; report_error = message })
        db.scans;
}

-- `findingsForScan`, without its order.
unfoldable pub findings_for_scan : String → Db → List Finding
findings_for_scan id db = select (λ f. str_eq f.scan_id id) db.findings

unfoldable pub claim_for : Option Scan → (String → Db → Db) → Db → Db × Option Scan
claim_for none mark db = (db, none)
claim_for (some s) mark db = (mark s.id db, some s)

-- `ClaimAnalysis`; reading the findings afterwards does not fail here.
unfoldable pub claim_analysis : Db → Db × Option Scan
unfolding claim_for set_analysis
claim_analysis db =
    claim_for (earliest awaits_analysis completed_first db.scans)
      (λ id. set_analysis id stage_running "") db

-- `ClaimReport`
unfoldable pub claim_report : Db → Db × Option Scan
unfolding claim_for set_report
claim_report db =
    claim_for (earliest awaits_report completed_first db.scans)
      (λ id. set_report id stage_running "") db

-- `FailAnalysis` and `FailReport`; the message is the bounded one.
unfoldable pub fail_analysis : (id message : String) → Db → Db
unfolding set_analysis
fail_analysis id message db = set_analysis id stage_failed message db

unfoldable pub fail_report : (id message : String) → Db → Db
unfolding set_report
fail_report id message db = set_report id stage_failed message db

abbrev pub scan_there : String → Db → Bool
scan_there id db = any (λ s. str_eq s.id id) db.scans

abbrev pub same_path : AttackPath → AttackPath → Bool
same_path p q = str_eq p.scan_id q.scan_id && str_eq p.title q.title

-- `INSERT INTO ce_attack_paths ... ON CONFLICT(scan_id,title) DO UPDATE`
unfoldable pub put_path : AttackPath → Db → Option Db
put_path p db =
    if any (same_path p) db.attack_paths
    then some (record db {
      attack_paths =
          update (same_path p)
            (λ q. record q {
              severity = p.severity;
              finding_ids = p.finding_ids;
              summary = p.summary;
              confidence = p.confidence;
            })
            db.attack_paths;
    })
    else if any (λ q. str_eq q.id p.id) db.attack_paths || not (scan_there p.scan_id db)
    then none
    else some (record db { attack_paths = db.attack_paths ++ p ∷ [] })

abbrev pub same_evidence : Evidence → Evidence → Bool
same_evidence e g = str_eq e.scan_id g.scan_id && str_eq e.digest g.digest

-- A finding's name that is blank becomes NULL; any other must be there.
unfoldable pub finding_or_null : Option String → Option String
finding_or_null none = none
finding_or_null (some f) = if str_eq (trim_space f) "" then none else some f

unfoldable pub finding_there : Option String → Db → Bool
finding_there none db = true
finding_there (some f) db = any (λ g. str_eq g.id f) db.findings

-- `INSERT INTO ce_evidence ... ON CONFLICT(scan_id,digest) DO UPDATE`
unfoldable pub put_evidence : Evidence → Db → Option Db
unfolding finding_or_null finding_there
put_evidence e db =
    let finding = finding_or_null e.finding_id in
    if any (same_evidence e) db.evidence
    then some (record db {
      evidence =
          update (same_evidence e) (λ g. record g { kind = e.kind; summary = e.summary })
            db.evidence;
    })
    else if any (λ g. str_eq g.id e.id) db.evidence
        || (not (scan_there e.scan_id db) || not (finding_there finding db))
    then none
    else some (record db { evidence = db.evidence ++ record e { finding_id = finding } ∷ [] })

-- `INSERT INTO ce_remediations ... ON CONFLICT(finding_id) DO UPDATE`
unfoldable pub put_remediation : Remediation → ℕ → Db → Option Db
put_remediation m now db =
    if any (λ q. str_eq q.finding_id m.finding_id) db.remediations
    then some (record db {
      remediations =
          update (λ q. str_eq q.finding_id m.finding_id)
            (λ q. record q { recommendation = m.recommendation; updated_at = now }) db.remediations;
    })
    else if any (λ q. str_eq q.id m.id) db.remediations
        || not (any (λ f. str_eq f.id m.finding_id) db.findings)
    then none
    else some (record db {
      remediations =
          db.remediations
          ++ record m {
            status = proposed;
            verification_status = not_run;
            created_at = now;
            updated_at = now;
          }
            ∷ [];
    })

-- The loops of a transaction: an error ends it.
unfoldable pub put_all {ℓ} : {A : Type ℓ} → (A → Db → Option Db) → List A → Db → Option Db
put_all put [] db = some db
put_all put (x ∷ xs) db = elim (put x db) [ none ↦ none | some db' ↦ put_all put xs db' ]

abbrev pub is_verification_queued : VerificationStatus → Bool
is_verification_queued verification_queued = true
is_verification_queued _ = false

-- The scan has a finding with the fingerprint of the remediation's finding.
unfoldable pub found_again : Db → (scan : String) → Finding → Bool
found_again db scan original =
    any (λ f. str_eq f.scan_id scan && str_eq f.fingerprint original.fingerprint) db.findings

unfoldable pub judged : Bool → ℕ → Remediation → Remediation
judged true now m = record m { verification_status = still_present; updated_at = now }
judged false now m = record m {
  verification_status = verified_fixed;
  status = resolved;
  updated_at = now;
}

unfoldable pub judge : Option Finding → Db → (scan : String) → ℕ → Remediation → Remediation
unfolding judged found_again
judge none db scan now m = m
judge (some original) db scan now m = judged (found_again db scan original) now m

-- The update of the queued verifications of the scan's repository.
unfoldable pub verify_remediation : Db → Scan → ℕ → Remediation → Remediation
unfolding judge
verify_remediation db s now m =
    if str_eq m.repo_id s.repo_id && is_verification_queued m.verification_status
    then judge (first (λ f. str_eq f.id m.finding_id) db.findings) db s.id now m
    else m

unfoldable pub each_verified : Db → Scan → ℕ → List Remediation → List Remediation
unfolding verify_remediation
each_verified db s now [] = []
each_verified db s now (m ∷ ms) = verify_remediation db s now m ∷ each_verified db s now ms

unfoldable pub verify_remediations : Scan → ℕ → Db → Db
unfolding each_verified
verify_remediations s now db = record db { remediations = each_verified db s now db.remediations }

unfoldable pub finish_analysis : Option Db → Scan → ℕ → Db → Db × Bool
unfolding verify_remediations set_analysis
finish_analysis none s now db = (db, false)
finish_analysis (some db') s now db =
    (set_analysis s.id stage_complete "" (verify_remediations s now db'), true)

unfoldable pub and_put {ℓ} : {A : Type ℓ} → Option Db → (A → Db → Option Db) → List A → Option Db
unfolding put_all
and_put none put xs = none
and_put (some db) put xs = put_all put xs db

-- The rows carry the scan that they are stored for.
abbrev pub path_of : Scan → ℕ → AttackPath → AttackPath
path_of s now p = record p {
  scan_id = s.id;
  project_id = s.project_id;
  repo_id = s.repo_id;
  created_at = now;
}

abbrev pub evidence_of : Scan → ℕ → Evidence → Evidence
evidence_of s now e = record e {
  scan_id = s.id;
  project_id = s.project_id;
  repo_id = s.repo_id;
  created_at = now;
}

abbrev pub remediation_of : Scan → Remediation → Remediation
remediation_of s m = record m { project_id = s.project_id; repo_id = s.repo_id }

-- `CompleteAnalysis`: one transaction; says whether it was committed.
unfoldable pub complete_analysis :
    Scan → List AttackPath → List Evidence → List Remediation → ℕ → Db → Db × Bool
unfolding finish_analysis and_put put_path put_evidence put_remediation
complete_analysis s paths evidence remediations now db =
    let after_paths = put_all (λ p. put_path (path_of s now p)) paths db in
    let after_evidence = and_put after_paths (λ e. put_evidence (evidence_of s now e)) evidence in
    finish_analysis
      (and_put after_evidence (λ m. put_remediation (remediation_of s m) now) remediations) s now db

abbrev pub same_report : Report → Report → Bool
same_report r q = str_eq r.scan_id q.scan_id && str_eq r.format q.format

-- `INSERT INTO ce_reports ... ON CONFLICT(scan_id,format) DO UPDATE`
unfoldable pub put_report : Report → Db → Option Db
put_report r db =
    if any (same_report r) db.reports
    then some (record db {
      reports =
          update (same_report r)
            (λ q. record q {
              body = r.body;
              finding_count = r.finding_count;
              evidence_count = r.evidence_count;
              created_at = r.created_at;
            })
            db.reports;
    })
    else if any (λ q. str_eq q.id r.id) db.reports || not (scan_there r.scan_id db)
    then none
    else some (record db { reports = db.reports ++ r ∷ [] })

unfoldable pub finish_report : Option Db → Scan → Db → Db × Bool
unfolding set_report
finish_report none s db = (db, false)
finish_report (some db') s db = (set_report s.id stage_complete "" db', true)

abbrev pub report_of : Scan → Report → Report
report_of s r = record r { scan_id = s.id; project_id = s.project_id; format = "html" }

-- `CompleteReport`: one transaction; says whether it was committed.
unfoldable pub complete_report : Scan → Report → Db → Db × Bool
unfolding finish_report put_report
complete_report s r db = finish_report (put_report (report_of s r) db) s db
