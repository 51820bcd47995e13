-- ===== src/Platform/Health.antt =====
-- store.go: the scores and grades of a project's repositories.
use flyto_warroom.Prelude.{
  ℕ, suc, ◌+◌, ◌-◌, ◌/◌, ◌==◌, String, Bool, true, false, ◌&&◌, ◌||◌, Option, none, some, List, [],
  ◌∷◌, select, length, leb, ltb, if◌then◌else◌, str_eq,
}
use flyto_warroom.Platform.{Db, Repository, Finding, err_not_found}
use flyto_warroom.Platform.Tables.{sort_by, take, count}
use flyto_warroom.Platform.Scans.{is_active}
use flyto_warroom.Platform.Projects.{Answer, answer, refuse, is_owned}

pub data Grade : Type 0 where
  grade_a grade_b grade_c grade_d grade_f : Grade

unfoldable pub score_to_grade : ℕ → Grade
score_to_grade score =
    if leb 800 score
    then grade_a
    else if leb 700 score
    then grade_b
    else if leb 600 score
    then grade_c
    else if leb 500 score
    then grade_d
    else grade_f

unfoldable pub deduction : (severity : String) → ℕ
deduction severity =
    if str_eq severity "critical"
    then 100
    else if str_eq severity "high"
    then 55
    else if str_eq severity "medium"
    then 25
    else 8

-- What the loop of `scoreGrade` takes from 900.
unfoldable pub deducted : List Finding → ℕ
unfolding deduction
deducted [] = 0
deducted (f ∷ fs) = deduction f.severity + deducted fs

-- `score < 250`, of a score that may be negative.
unfoldable pub display_score : List Finding → ℕ
unfolding deducted
display_score findings = if ltb 900 (deducted findings + 250) then 250 else 900 - deducted findings

-- `SELECT DISTINCT ON (fingerprint) ... ORDER BY fingerprint, created_at DESC`, but for the order of its rows.
unfoldable pub keep_latest : Finding → List Finding → List Finding
keep_latest f [] = f ∷ []
keep_latest f (g ∷ gs) =
    let rest = keep_latest f gs in
    if str_eq g.fingerprint f.fingerprint
    then (if leb g.created_at f.created_at then f else g) ∷ gs
    else g ∷ rest

unfoldable pub distinct_on_fingerprint : List Finding → List Finding
unfolding keep_latest
distinct_on_fingerprint [] = []
distinct_on_fingerprint (f ∷ fs) = keep_latest f (distinct_on_fingerprint fs)

unfoldable pub findings_of : Db → (repo : String) → List Finding
unfolding select distinct_on_fingerprint
findings_of db repo = distinct_on_fingerprint (select (λ f. str_eq f.repo_id repo) db.findings)

pub record HealthRow : Type 0 where
  pub repo_id : String
  pub scanned_at : Option ℕ
  pub secret_count : ℕ
  pub security_findings : ℕ
  pub critical_count : ℕ
  pub high_count : ℕ
  pub total_count : ℕ
  pub score : ℕ
  pub grade : Grade

pub record RiskRow : Type 0 where
  pub repo_id : String
  pub grade : Grade
  pub score : ℕ

-- The map from a grade to its count.
pub record GradeDist : Type 0 where
  pub a : ℕ
  pub b : ℕ
  pub c : ℕ
  pub d : ℕ
  pub f : ℕ

pub record HealthAggregated : Type 0 where
  pub avg_score : ℕ
  pub avg_grade : Option Grade
  pub grade_dist : GradeDist
  pub at_risk_count : ℕ
  pub secure_count : ℕ
  pub critical_count : ℕ
  pub high_count : ℕ
  pub top_risks : List RiskRow

pub record HealthSummary : Type 0 where
  pub repos : List HealthRow
  pub scanned_count : ℕ
  pub total_count : ℕ
  pub active_scan_count : ℕ
  pub aggregated : HealthAggregated

-- The constant type of the project is left out.
unfoldable pub health_row : Repository → List Finding → HealthRow
unfolding select display_score score_to_grade
health_row repo findings = record {
  repo_id = repo.id;
  scanned_at = repo.last_scanned_at;
  secret_count = count (λ f. str_eq f.category "secret") findings;
  security_findings = count (λ f. str_eq f.category "sast" || str_eq f.category "iac") findings;
  critical_count = count (λ f. str_eq f.severity "critical") findings;
  high_count = count (λ f. str_eq f.severity "high") findings;
  total_count = length findings;
  score = display_score findings;
  grade = score_to_grade (display_score findings);
}

-- `GradeDist[row.Grade]++`
abbrev pub bump : Grade → GradeDist → GradeDist
bump grade_a g = record g { a = suc g.a }
bump grade_b g = record g { b = suc g.b }
bump grade_c g = record g { c = suc g.c }
bump grade_d g = record g { d = suc g.d }
bump grade_f g = record g { f = suc g.f }

abbrev pub is_at_risk : Grade → Bool
is_at_risk grade_d = true
is_at_risk grade_f = true
is_at_risk _ = false

abbrev pub is_secure : Grade → Bool
is_secure grade_a = true
is_secure grade_b = true
is_secure _ = false

abbrev pub is_scanned : Option ℕ → Bool
is_scanned none = false
is_scanned (some t) = true

-- A turn of the loop over the repositories, where `avg_score` is still the sum.
abbrev pub add_row : HealthRow → HealthSummary → HealthSummary
add_row row s =
    let g = s.aggregated in
    record s {
      repos = row ∷ s.repos;
      scanned_count = if is_scanned row.scanned_at then suc s.scanned_count else s.scanned_count;
      aggregated = record g {
        avg_score = row.score + g.avg_score;
        grade_dist = bump row.grade g.grade_dist;
        at_risk_count = if is_at_risk row.grade then suc g.at_risk_count else g.at_risk_count;
        secure_count = if is_secure row.grade then suc g.secure_count else g.secure_count;
        critical_count = row.critical_count + g.critical_count;
        high_count = row.high_count + g.high_count;
        top_risks =
            record { repo_id = row.repo_id; grade = row.grade; score = row.score } ∷ g.top_risks;
      };
    }

abbrev pub empty_summary : (total active : ℕ) → HealthSummary
empty_summary total active = record {
  repos = [];
  scanned_count = 0;
  total_count = total;
  active_scan_count = active;
  aggregated = record {
    avg_score = 0;
    avg_grade = none;
    grade_dist = record { a = 0; b = 0; c = 0; d = 0; f = 0 };
    at_risk_count = 0;
    secure_count = 0;
    critical_count = 0;
    high_count = 0;
    top_risks = [];
  };
}

-- The rows of the repositories; the sums do not depend on their order.
unfoldable pub add_rows : Db → List Repository → HealthSummary → HealthSummary
unfolding health_row findings_of
add_rows db [] s = s
add_rows db (r ∷ rs) s = add_row (health_row r (findings_of db r.id)) (add_rows db rs s)

-- The average, and the five repositories with the lowest scores; equals stay in order, which Go leaves open.
unfoldable pub finish : HealthSummary → HealthSummary
unfolding score_to_grade sort_by take
finish s =
    let g = s.aggregated in
    let n = s.total_count in
    record s {
      aggregated = record g {
        avg_score = if ltb 0 n then g.avg_score / n else g.avg_score;
        avg_grade = if ltb 0 n then some (score_to_grade (g.avg_score / n)) else none;
        top_risks = take 5 (sort_by (λ x y. leb x.score y.score) g.top_risks);
      };
    }

-- `ListRepositories`
unfoldable pub list_repositories : Db → (user id : String) → Answer (List Repository)
unfolding sort_by select
list_repositories db user id =
    if count (is_owned user id) db.projects == 0
    then refuse err_not_found
    else answer (
        sort_by (λ r q. leb r.created_at q.created_at)
          (select (λ r. str_eq r.project_id id) db.repositories))

-- `status IN ('queued','running')`
unfoldable pub active_scans : Db → (id : String) → ℕ
unfolding select
active_scans db id = count (λ s. str_eq s.project_id id && is_active s.status) db.scans

unfoldable pub summarise : Db → (id : String) → Answer (List Repository) → Answer HealthSummary
unfolding finish add_rows active_scans
summarise db id (refuse e) = refuse e
summarise db id (answer repos) =
    answer (finish (add_rows db repos (empty_summary (length repos) (active_scans db id))))

unfoldable pub health_summary : Db → (user id : String) → Answer HealthSummary
unfolding list_repositories summarise
health_summary db user id = summarise db id (list_repositories db user id)
