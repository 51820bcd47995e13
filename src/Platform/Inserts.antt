-- ===== src/Platform/Inserts.antt =====
-- The inserts of a transaction do not touch the scans.
use flyto_warroom.Prelude.{
  ℕ, ◌≡◌, refl, sym, ap, ◌∙◌, Option, none, some, List, [], ◌∷◌, arith, Option-cases, inl, inr,
}
use flyto_warroom.Platform.{Db, Scan, Finding, AttackPath, Evidence, Remediation, Report}
use flyto_warroom.Platform.Scans.{insert_findings, insert_finding, map_of_scan}
use flyto_warroom.Platform.Stages.{
  put_path, put_evidence, put_remediation, put_report, put_all, and_put,
}
use flyto_warroom.Platform.Stages.{path_of, evidence_of, remediation_of}
use flyto_warroom.Platform.Growth.{some_eq}

Keeps : (Db → Option Db) → Type 0
Keeps put = (db db' : Db) → put db ≡ some db' → db'.scans ≡ db.scans

finding-Keeps : (f : Finding) → Keeps (insert_finding f)
unfolding insert_finding Keeps
finding-Keeps f db db' e = ground arith

path-Keeps : (p : AttackPath) → Keeps (put_path p)
unfolding put_path Keeps
path-Keeps p db db' e = ground arith

evidence-Keeps : (g : Evidence) → Keeps (put_evidence g)
unfolding put_evidence Keeps
evidence-Keeps g db db' e = ground arith

remediation-Keeps : (m : Remediation) (now : ℕ) → Keeps (put_remediation m now)
unfolding put_remediation Keeps
remediation-Keeps m now db db' e = ground arith

report-Keeps : (r : Report) → Keeps (put_report r)
unfolding put_report Keeps
report-Keeps r db db' e = ground arith

all-Keeps {ℓ} :
    {A : Type ℓ} (put : A → Db → Option Db)
    → ((x : A) → Keeps (put x))
    → (xs : List A) → Keeps (put_all put xs)
unfolding put_all Keeps
all-Keeps put keeps [] db db' e = ap (λ d. d.scans) (sym (some_eq e))
all-Keeps put keeps (x ∷ xs) db db' e = elim (Option-cases (put x db)) [
  | inl q ↦ absurd (cc (rw (q, put_all) at e))
  | inr (d, q) ↦ all-Keeps put keeps xs d db' (rw (q, put_all) at e) ∙ keeps x db d q
]

findings-Keeps : (fs : List Finding) → Keeps (insert_findings fs)
unfolding insert_findings Keeps
findings-Keeps [] db db' e = ap (λ d. d.scans) (sym (some_eq e))
findings-Keeps (f ∷ fs) db db' e = elim (Option-cases (insert_finding f db)) [
  | inl q ↦ absurd (cc (rw (q, insert_findings) at e))
  | inr (d, q) ↦ findings-Keeps fs d db' (rw (q, insert_findings) at e) ∙ finding-Keeps f db d q
]

and_put-Keeps {ℓ} :
    {A : Type ℓ} (o : Option Db) (put : A → Db → Option Db) (xs : List A) (db db' : Db)
    → ((x : A) → Keeps (put x))
    → ((d : Db) → o ≡ some d → d.scans ≡ db.scans)
    → and_put o put xs ≡ some db'
    → db'.scans ≡ db.scans
unfolding and_put Keeps
and_put-Keeps none put xs db db' keeps before e = absurd (cc e)
and_put-Keeps (some d) put xs db db' keeps before e = all-Keeps put keeps xs d db' e ∙ before d refl

-- The transactions of `CompleteScan`, `CompleteAnalysis` and `CompleteReport` up to their last updates.
pub scan_rows :
    (s : Scan) (findings : List Finding) (db db' : Db)
    → insert_findings (map_of_scan s findings) db ≡ some db'
    → db'.scans ≡ db.scans
unfolding Keeps
scan_rows s findings db db' e = findings-Keeps (map_of_scan s findings) db db' e

pub analysis_rows :
    (s : Scan) (paths : List AttackPath) (evidence : List Evidence)
    (remediations : List Remediation) (now : ℕ) (db db' : Db)
    → and_put
        (and_put
          (put_all (λ p. put_path (path_of s now p)) paths db)
          (λ e. put_evidence (evidence_of s now e))
          evidence)
        (λ m. put_remediation (remediation_of s m) now)
        remediations
      ≡ some db'
    → db'.scans ≡ db.scans
unfolding Keeps
analysis_rows s paths evidence remediations now db db' e =
    let after_paths = put_all (λ p. put_path (path_of s now p)) paths db in
    let after_evidence = and_put after_paths (λ g. put_evidence (evidence_of s now g)) evidence in
    and_put-Keeps after_evidence (λ m. put_remediation (remediation_of s m) now) remediations db db'
      (λ m. remediation-Keeps (remediation_of s m) now)
      (λ d q.
        and_put-Keeps after_paths (λ g. put_evidence (evidence_of s now g)) evidence db d
          (λ g. evidence-Keeps (evidence_of s now g))
          (λ c r.
            all-Keeps (λ p. put_path (path_of s now p)) (λ p. path-Keeps (path_of s now p)) paths db
              c r)
          q)
      e

pub report_rows : (r : Report) (db db' : Db) → put_report r db ≡ some db' → db'.scans ≡ db.scans
unfolding Keeps
report_rows r db db' e = report-Keeps r db db' e
