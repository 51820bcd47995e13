-- ===== src/Platform.antt =====
-- internal/ceplatform: the durable state of the Community Edition (models.go, schema.go, store.go and
-- workflow.go). A table is the list of its rows in the order of insertion, and an SQL statement is
-- what it says over these lists; a transaction that fails leaves the tables as they were. Fresh
-- identifiers and the readings of the clock are arguments. A lost connection is not modelled.
pub mod Tables
pub mod Sorting
pub mod Scans
pub mod Stages
pub mod Remedies
pub mod Workers
pub mod Growth
pub mod Inserts
pub mod Queue
pub mod Requests
pub mod Verdicts
pub mod Safety
pub mod Projects
pub mod Health
pub mod Connect
pub mod Tenancy
pub mod Integrity
pub mod Scores
mod Tests
mod TenantTests
use flyto_warroom.Prelude.{ℕ, ◌*◌, String, Bool, Option, List}

abbrev pub minute : ℕ
minute = 60_000_000_000

abbrev pub day : ℕ
day = 24 * (60 * minute)

pub data ScanStatus : Type 0 where
  queued running complete failed cancelled : ScanStatus

-- `analysis_status` and `report_status`
pub data StageStatus : Type 0 where
  stage_pending stage_running stage_complete stage_failed : StageStatus

pub record User : Type 0 where
  pub id : String
  pub email : String
  pub display_name : String
  pub password_hash : String
  pub created_at : ℕ

pub record Project : Type 0 where
  pub id : String
  pub owner_user_id : String
  pub name : String
  pub slug : String
  pub description : String
  pub project_type : String
  pub created_at : ℕ

pub record Repository : Type 0 where
  pub id : String
  pub project_id : String
  pub provider : String
  pub provider_id : String
  pub full_name : String
  pub owner_name : String
  pub repo_name : String
  pub language : String
  pub is_private : Bool
  pub html_url : String
  pub clone_url : String
  pub default_branch : String
  pub auto_scan : Bool
  pub scan_mode : String
  pub last_scanned_at : Option ℕ
  pub last_scan_status : String
  pub last_scan_error : String
  pub created_at : ℕ

pub record Scan : Type 0 where
  pub id : String
  pub project_id : String
  pub repo_id : String
  pub status : ScanStatus
  pub analysis_status : StageStatus
  pub report_status : StageStatus
  pub trigger_type : String
  pub error : String
  pub analysis_error : String
  pub report_error : String
  pub started_at : Option ℕ
  pub completed_at : Option ℕ
  pub created_at : ℕ

pub record Finding : Type 0 where
  pub id : String
  pub scan_id : String
  pub project_id : String
  pub repo_id : String
  pub category : String
  pub severity : String
  pub rule_id : String
  pub title : String
  pub file_path : String
  pub line_no : ℕ
  pub detail : String
  pub fingerprint : String
  pub created_at : ℕ

pub data RemediationStatus : Type 0 where
  proposed accepted resolved dismissed : RemediationStatus

pub data VerificationStatus : Type 0 where
  not_run verification_queued verified_fixed still_present : VerificationStatus

pub record Remediation : Type 0 where
  pub id : String
  pub project_id : String
  pub repo_id : String
  pub finding_id : String
  pub recommendation : String
  pub status : RemediationStatus
  pub verification_status : VerificationStatus
  pub created_at : ℕ
  pub updated_at : ℕ

pub record Report : Type 0 where
  pub id : String
  pub scan_id : String
  pub project_id : String
  pub format : String
  pub body : String
  pub finding_count : ℕ
  pub evidence_count : ℕ
  pub created_at : ℕ

pub record AttackPath : Type 0 where
  pub id : String
  pub scan_id : String
  pub project_id : String
  pub repo_id : String
  pub title : String
  pub severity : String
  pub finding_ids : List String
  pub summary : String
  pub confidence : String
  pub created_at : ℕ

pub record Evidence : Type 0 where
  pub id : String
  pub scan_id : String
  pub project_id : String
  pub repo_id : String
  pub finding_id : Option String
  pub kind : String
  pub digest : String
  pub summary : String
  pub created_at : ℕ

-- The tables.
pub record Db : Type 0 where
  pub users : List User
  pub projects : List Project
  pub repositories : List Repository
  pub scans : List Scan
  pub findings : List Finding
  pub attack_paths : List AttackPath
  pub evidence : List Evidence
  pub remediations : List Remediation
  pub reports : List Report

-- `ErrNotFound`, `ErrBootstrapClosed`, `ErrConflict`, `ErrInvalidInput`, and what PostgreSQL reports
-- where a constraint is violated.
pub data StoreError : Type 0 where
  err_not_found err_bootstrap_closed err_conflict err_invalid_input err_constraint : StoreError
