-- ===== src/Analysis.antt =====
-- internal/ceworkflow/workflow.go: what the analysis worker derives from a completed scan. SHA-256 in hexadecimal is a
-- parameter; the texts of the evidence and of the paths are left out, as is the report. A title has a first
-- letter in ASCII.
pub mod Titles
pub mod Coverage
pub mod Paths
mod Tests
use flyto_warroom.Prelude.{
  ℕ, zero, suc, ◌==◌, String, Bool, true, false, not, ◌&&◌, ◌||◌, Option, none, some, List, [], ◌∷◌,
  map, ltb, leb, if◌then◌else◌, str_eq, to_lower, trim_space,
}
use Prim.Native.Nat.{Ordering}
use Prim.Native.String.{◌++◌ as ◌++ₛ◌, compare}
use flyto_warroom.Prelude.Dict.{Dict, lookup, insert}
use flyto_warroom.Platform.{Scan, Finding}
use flyto_warroom.Analysis.Titles.{path_title}
use flyto_warroom.Platform.Tables.{sort_by}

-- `ceplatform.Evidence`, `Remediation` and `AttackPath`, of what `Analyze` sets, without their texts.
pub record EvidenceItem : Type 0 where
  pub id : String
  pub scan_id : String
  pub project_id : String
  pub repo_id : String
  pub finding_id : String
  pub kind : String

pub record RemediationItem : Type 0 where
  pub id : String
  pub project_id : String
  pub repo_id : String
  pub finding_id : String
  pub recommendation : String

pub record PathItem : Type 0 where
  pub id : String
  pub scan_id : String
  pub project_id : String
  pub repo_id : String
  pub title : String
  pub severity : String
  pub finding_ids : List String
  pub confidence : String

pub record AnalysisResult : Type 0 where
  pub attack_paths : List PathItem
  pub evidence : List EvidenceItem
  pub remediations : List RemediationItem

unfoldable pub severity_rank : (severity : String) → ℕ
severity_rank severity =
    let s = to_lower (trim_space severity) in
    if str_eq s "critical"
    then 0
    else if str_eq s "high"
    then 1
    else if str_eq s "medium"
    then 2
    else if str_eq s "low"
    then 3
    else 4

-- `!(y < x)` on texts
abbrev pub at_most : Ordering → Bool
at_most Ordering.lt = true
at_most Ordering.eq = true
at_most Ordering.gt = false

unfoldable pub finding_le : Finding → Finding → Bool
unfolding severity_rank
finding_le x y =
    let left = severity_rank x.severity in
    let right = severity_rank y.severity in
    if not (left == right) then ltb left right else at_most (compare x.fingerprint y.fingerprint)

unfoldable pub category_of : Finding → String
category_of f =
    let category = to_lower (trim_space f.category) in
    if str_eq category "" then "security" else category

-- `groups[category] = append(groups[category], finding)`
abbrev pub or_none : Option (List Finding) → List Finding
or_none none = []
or_none (some fs) = fs

-- The groups, of findings from the last to the first.
unfoldable pub group_by_category : List Finding → Dict (List Finding)
unfolding category_of lookup insert
group_by_category [] = []
group_by_category (f ∷ fs) =
    let groups = group_by_category fs in
    insert (category_of f) (f ∷ or_none (lookup (category_of f) groups)) groups

unfoldable pub select_high_risk : List Finding → (limit : ℕ) → List Finding
unfolding severity_rank
select_high_risk [] limit = []
select_high_risk (f ∷ fs) zero = []
select_high_risk (f ∷ fs) (suc limit) =
    let passed = select_high_risk fs (suc limit) in
    let taken = select_high_risk fs limit in
    if ltb (severity_rank "medium") (severity_rank f.severity) then passed else f ∷ taken

unfoldable pub recommendation : Finding → String
recommendation f =
    let category = to_lower (trim_space f.category) in
    if str_eq category "secret"
    then "Revoke or rotate the exposed value, remove it from source and history where appropriate, then re-run the repository scan."
    else if str_eq category "iac"
    then "Update the infrastructure definition to enforce the reported security control, review the planned change, then re-run the scan."
    else if str_eq category "dependency"
    then "Upgrade to a supported patched dependency version, run the project test suite, then re-run dependency analysis."
    else if str_eq category "sast"
    then "Review the reported data or control flow, apply a narrowly scoped code fix with regression coverage, then re-run static analysis."
    else "Review the finding and its evidence, apply an authorized corrective change, then re-run the scan to verify the fingerprint cleared."

abbrev pub ids_of : List Finding → List String
ids_of [] = []
ids_of (f ∷ fs) = f.id ∷ ids_of fs

unfoldable pub path_le : PathItem → PathItem → Bool
unfolding severity_rank
path_le x y =
    let left = severity_rank x.severity in
    let right = severity_rank y.severity in
    if not (left == right) then ltb left right else at_most (compare x.title y.title)

-- `stableID`: SHA-256 of the parts between zero bytes, of which 16 bytes are shown, is the parameter.
module _ (digest : List String → String) where
  abbrev pub stable_id : (start : String) → List String → String
  stable_id start parts = start ++ₛ "_" ++ₛ digest parts

  abbrev pub evidence_of : Scan → Finding → EvidenceItem
  evidence_of scan f = record {
    id = stable_id "evidence" (scan.id ∷ f.fingerprint ∷ []);
    scan_id = scan.id;
    project_id = scan.project_id;
    repo_id = scan.repo_id;
    finding_id = f.id;
    kind = "scanner_finding";
  }

  unfoldable pub remediation_of : Scan → Finding → RemediationItem
  unfolding recommendation
  remediation_of scan f = record {
    id = stable_id "remediation" (f.id ∷ []);
    project_id = scan.project_id;
    repo_id = scan.repo_id;
    finding_id = f.id;
    recommendation = recommendation f;
  }

  -- The hypothesis of a group, if it has findings of a high risk.
  unfoldable pub with_path :
      Scan → (category : String) → (high_risk : List Finding) → List PathItem → List PathItem
  unfolding path_title
  with_path scan category [] paths = paths
  with_path scan category (f ∷ fs) paths =
      record {
        id = stable_id "path" (scan.id ∷ category ∷ []);
        scan_id = scan.id;
        project_id = scan.project_id;
        repo_id = scan.repo_id;
        title = path_title category;
        severity = f.severity;
        finding_ids = ids_of (f ∷ fs);
        confidence = "hypothesis";
      }
      ∷ paths

  unfoldable pub paths_of : Scan → Dict (List Finding) → List PathItem
  unfolding with_path select_high_risk
  paths_of scan [] = []
  paths_of scan ((category, group) ∷ groups) =
      with_path scan category (select_high_risk group 4) (paths_of scan groups)

  unfoldable pub analyze : Scan → List Finding → AnalysisResult
  unfolding sort_by finding_le paths_of path_le group_by_category
  analyze scan unsorted =
      let findings = sort_by finding_le unsorted in
      record {
        attack_paths = sort_by path_le (paths_of scan (group_by_category findings));
        evidence = map (evidence_of scan) findings;
        remediations = map (remediation_of scan) findings;
      }
