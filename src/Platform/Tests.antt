-- ===== src/Platform/Tests.antt =====
-- Runs of the stages on a small project.
use flyto_warroom.Prelude.{
  ℕ, ◌≡◌, ◌≤◌, refl, String, Bool, true, false, none, List, [], ◌∷◌, arith, any, select, length,
}
use flyto_warroom.Platform.{
  Db, Project, Repository, Scan, Finding, Remediation, queued, running, complete, stage_pending,
  stage_complete, accepted, proposed, resolved, verification_queued, verified_fixed, still_present,
  not_run, RemediationStatus, VerificationStatus, err_not_found,
}
use flyto_warroom.Platform.Scans.{
  enqueue_due, repository, has_active, owns, create_scan, created, not_created, complete_scan,
  active_scan_of, new_scan,
}
use flyto_warroom.Platform.Tables.{first}
use flyto_warroom.Platform.Stages.{complete_analysis}
use flyto_warroom.Platform.Workers.{
  System, Op, op_create, op_claim_scan, op_complete_scan, op_claim_analysis, run, step,
}
use flyto_warroom.Platform.Safety.{IsUnique}
use flyto_warroom.Platform.Safety.Steps.{IsSafeSystem}
use flyto_warroom.Platform.Safety.Always.{IsNew, AllNew, run-IsSafe}
use flyto_warroom.Platform.Queue.{served_in_turn, waiting_count, IsLater, claims}
use flyto_warroom.Platform.Requests.{tick_queues_few, stranger_gets_nothing, same_scan_again}
use flyto_warroom.Platform.Verdicts.{analysis_decides, Continues, Verdict}

abbrev is_still_present : VerificationStatus → Bool
is_still_present still_present = true
is_still_present _ = false

abbrev shop : Project
shop = record {
  id = "org_1";
  owner_user_id = "usr_1";
  name = "Shop";
  slug = "shop";
  description = "";
  project_type = "all";
  created_at = 1;
}

abbrev cart : Repository
cart = record {
  id = "repo_1";
  project_id = "org_1";
  provider = "git";
  provider_id = "a/cart";
  full_name = "a/cart";
  owner_name = "a";
  repo_name = "cart";
  language = "go";
  is_private = false;
  html_url = "";
  clone_url = "https://git.example/a/cart";
  default_branch = "main";
  auto_scan = true;
  scan_mode = "cloud";
  last_scanned_at = none;
  last_scan_status = "";
  last_scan_error = "";
  created_at = 1;
}

abbrev leak : Finding
leak = record {
  id = "f_1";
  scan_id = "";
  project_id = "";
  repo_id = "";
  category = "secret";
  severity = "high";
  rule_id = "r";
  title = "key";
  file_path = "a.go";
  line_no = 3;
  detail = "";
  fingerprint = "fp";
  created_at = 2;
}

abbrev advice : Remediation
advice = record {
  id = "rem_1";
  project_id = "org_1";
  repo_id = "repo_1";
  finding_id = "f_1";
  recommendation = "rotate";
  status = proposed;
  verification_status = not_run;
  created_at = 5;
  updated_at = 5;
}

abbrev small : Db
small = record {
  users = [];
  projects = shop ∷ [];
  repositories = cart ∷ [];
  scans = [];
  findings = [];
  attack_paths = [];
  evidence = [];
  remediations = [];
  reports = [];
}

abbrev idle : System
idle = record { db = small; scanning = []; analysing = []; reporting = [] }

idle-IsSafe : IsSafeSystem idle
unfolding select IsUnique
idle-IsSafe = record { unique = tt; one_active = λ repo. omega arith; fits = tt }

abbrev first_scan : List Op
first_scan =
    op_create "usr_1" "repo_1" "scan_1" 2
    ∷ op_claim_scan 3
    ∷ op_complete_scan 0 (leak ∷ []) 4
    ∷ op_claim_analysis
    ∷ []

run-IsSafe_example : IsSafeSystem (run first_scan idle)
unfolding AllNew IsNew select
run-IsSafe_example =
    run-IsSafe first_scan idle ((refl, refl, refl), (tt, (tt, (tt, tt)))) idle-IsSafe

first_scan_analysed : length (run first_scan idle).analysing ≡ 1
unfolding run step flyto_warroom.Platform.Stages.claim_analysis
    flyto_warroom.Platform.Tables.earliest flyto_warroom.Platform.Scans.claim_scan create_scan
    flyto_warroom.Platform.Tables.first any complete_scan flyto_warroom.Platform.Tables.update
first_scan_analysed = refl

abbrev waits : (id repo : String) → ℕ → Scan
waits id repo at = new_scan id "org_1" repo "manual" at

abbrev two_waiting : System
two_waiting = record idle {
  db = record small {
    scans = waits "a" "repo_a" 7 ∷ waits "b" "repo_b" 4 ∷ waits "c" "repo_c" 2 ∷ [];
  };
}

served_in_turn_example :
    waiting_count 5
      (run
        (op_claim_scan 8 ∷ op_create "usr_1" "repo_1" "d" 9 ∷ op_claim_scan 10 ∷ [])
        two_waiting).db.scans
    ≡ 0
unfolding IsLater claims select new_scan
served_in_turn_example =
    served_in_turn 5 (op_claim_scan 8 ∷ op_create "usr_1" "repo_1" "d" 9 ∷ op_claim_scan 10 ∷ [])
      two_waiting (tt, (omega arith, (tt, tt))) (omega arith)

abbrev busy : Db
busy = record small { scans = waits "scan_1" "repo_1" 2 ∷ [] }

same_scan_again_holds :
    (s : Scan) × (create_scan "usr_1" "repo_1" "scan_2" 9 busy ≡ (busy, created s))
    × (active_scan_of "repo_1" s ≡ true)
unfolding repository has_active first any owns new_scan
same_scan_again_holds = same_scan_again "usr_1" "repo_1" "scan_2" 9 busy cart refl refl

stranger_gets_nothing_holds :
    create_scan "usr_2" "repo_1" "scan_2" 9 busy ≡ (busy, not_created err_not_found)
unfolding owns any
stranger_gets_nothing_holds =
    stranger_gets_nothing "usr_2" "repo_1" "scan_2" 9 busy (λ project. ground arith)

-- A verification that was asked for while the analysis of an older scan was under way.
abbrev older : Scan
older = record (waits "scan_1" "repo_1" 2) { status = complete }

abbrev asked : Db
asked = record small {
  scans = older ∷ waits "scan_2" "repo_1" 8 ∷ [];
  findings = record leak { scan_id = "scan_1"; repo_id = "repo_1" } ∷ [];
  remediations =
      record advice { status = accepted; verification_status = verification_queued } ∷ [];
}

abbrev is_resolved : RemediationStatus → Bool
is_resolved resolved = true
is_resolved _ = false

older_scan_decides :
    any
      (λ m. is_still_present m.verification_status)
      (complete_analysis older [] [] [] 9 asked).0.remediations
    ≡ true
unfolding complete_analysis any new_scan first
older_scan_decides = refl

analysis_decides_example :
    Continues
      (Verdict asked.findings older)
      asked.remediations
      (complete_analysis older [] [] [] 9 asked).0.remediations
unfolding complete_analysis new_scan
analysis_decides_example = analysis_decides older [] [] [] 9 asked refl

-- The newer scan has no finding, so the verification is done.
newer_scan_resolves :
    any
      (λ m. is_resolved m.status)
      (complete_analysis (waits "scan_2" "repo_1" 8) [] [] [] 9 asked).0.remediations
    ≡ true
unfolding complete_analysis any new_scan first
newer_scan_resolves = refl

tick_queues_few_holds : length (enqueue_due 0 500 (λ n. "scan_1") 9 small).0.scans ≤ 100
tick_queues_few_holds = tick_queues_few 0 500 (λ n. "scan_1") 9 small
