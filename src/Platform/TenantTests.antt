-- ===== src/Platform/TenantTests.antt =====
-- Two users, of which one is a guest of the tables, and their projects.
use flyto_warroom.Prelude.{
  ◌≤◌, ◌≡◌, refl, String, false, some, Option, List, [], ◌∷◌, arith, select, eq_iff, ◌+◌,
}
use flyto_warroom.Platform.{Db, Repository, Finding, err_bootstrap_closed}
use flyto_warroom.Platform.Tables.{sort_by}
use flyto_warroom.Platform.Projects.{refuse, bootstrap, bootstrap_open}
use flyto_warroom.Platform.Connect.{Url}
use flyto_warroom.Platform.Health.{
  HealthSummary, health_summary, display_score, add_rows, finish, summarise, list_repositories,
  empty_summary,
}
use flyto_warroom.Platform.Scores.{another_finding, summary-IsConsistent, IsConsistent}
use flyto_warroom.Platform.Tenancy.{
  Request, req_bootstrap, req_create, req_update, req_delete, req_connect, serve_all, projects_of,
  others_kept,
}
use flyto_warroom.Platform.Integrity.{IsSound}
use flyto_warroom.Platform.Integrity.Requests.{serve_all-IsSound}

abbrev empty : Db
empty = record {
  users = [];
  projects = [];
  repositories = [];
  scans = [];
  findings = [];
  attack_paths = [];
  evidence = [];
  remediations = [];
  reports = [];
}

abbrev shop : Repository
shop = record {
  id = "";
  project_id = "";
  provider = "";
  provider_id = "";
  full_name = "acme/shop";
  owner_name = "acme";
  repo_name = "shop";
  language = "go";
  is_private = false;
  html_url = "";
  clone_url = "https://github.com/acme/shop";
  default_branch = "";
  auto_scan = false;
  scan_mode = "";
  last_scanned_at = some 5;
  last_scan_status = "";
  last_scan_error = "";
  created_at = 0;
}

-- A stand-in for the parser of URLs.
abbrev parse : String → Option Url
parse text =
    some
      (record { scheme = "https"; has_user = false; hostname = "github.com"; path = "/acme/shop" })

abbrev visits : List Request
visits =
    req_bootstrap "Ann@Example.com " "Ann" "hash" "usr_1" "org_1" 1
    ∷ req_connect "usr_1" "org_1" shop "repo_1" 2
    ∷ req_bootstrap "eve@example.com" "Eve" "hash" "usr_2" "org_2" 3
    ∷ req_create "usr_1" " Web " "WEB" "" "org_3" 4
    ∷ req_delete "usr_2" "org_1"
    ∷ []

serve_all-IsSound_example : IsSound parse (serve_all parse visits empty)
serve_all-IsSound_example =
    serve_all-IsSound parse visits empty
      (record { one_user = omega arith; owners = tt; homes = tt })

abbrev with_org : Db
with_org = record empty {
  projects =
      record {
        id = "org_1";
        owner_user_id = "usr_1";
        name = "Shop";
        slug = "shop";
        description = "";
        project_type = "all";
        created_at = 1;
      }
      ∷ [];
  repositories = record shop { id = "repo_1"; project_id = "org_1" } ∷ [];
}

abbrev guests : List Request
guests = req_delete "usr_2" "org_1" ∷ req_update "usr_2" "org_1" "Mine" "mine" ∷ []

others_kept_example :
    projects_of "usr_1" (serve_all parse guests with_org).projects
    ≡ projects_of "usr_1" with_org.projects
others_kept_example =
    others_kept parse "usr_1" guests with_org
      (ground (arith, eq_iff "usr_2" "usr_1"), (ground (arith, eq_iff "usr_2" "usr_1"), tt))

abbrev critical : Finding
critical = record {
  id = "f_1";
  scan_id = "scan_1";
  project_id = "org_1";
  repo_id = "repo_1";
  category = "sast";
  severity = "critical";
  rule_id = "r";
  title = "t";
  file_path = "a.go";
  line_no = 1;
  detail = "";
  fingerprint = "fp";
  created_at = 1;
}

another_finding_example :
    (display_score (critical ∷ []) ≤ display_score [])
    × (display_score [] ≤ display_score (critical ∷ []) + 100)
    × (display_score (critical ∷ []) ≡ display_score [] → display_score [] ≡ 250)
another_finding_example = another_finding critical []

abbrev known : Db
known = record with_org { findings = critical ∷ [] }

abbrev shop_summary : HealthSummary
unfolding add_rows finish
shop_summary = finish (add_rows known known.repositories (empty_summary 1 0))

summary-IsConsistent_example : IsConsistent shop_summary
unfolding health_summary list_repositories summarise select sort_by shop_summary
summary-IsConsistent_example = summary-IsConsistent known "usr_1" "org_1" shop_summary refl

closed :
    (bootstrap "b" "B" "h" "usr_9" "org_9" 9 (record empty {
      users =
          record { id = "u"; email = "e"; display_name = ""; password_hash = ""; created_at = 0 }
          ∷ [];
    })).1
    ≡ refuse err_bootstrap_closed
unfolding bootstrap bootstrap_open select
closed = refl
