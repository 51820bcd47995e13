-- ===== src/Platform/Scores.antt =====
-- The bounds of the scores, the grades and the counts of a project.
use flyto_warroom.Prelude.{
  ℕ, ◌+◌, ◌*◌, ◌/◌, ◌≤◌, ◌<◌, ◌≡◌, ◌⊎◌, refl, String, Bool, true, false, List, [], ◌∷◌, map, arith,
  length, leb, ltb, select, if◌then◌else◌, Bool-cases, inl, inr,
}
use native.Mathlib.Nat.{le-div_iff_mul-le, div-le_of_le-mul}
use mathlib.Core.Path.{subst, ap}
use flyto_warroom.Platform.Projects.{Answer, answer, refuse}
use flyto_warroom.Platform.{Db, Repository, Finding}
use flyto_warroom.Platform.Tables.{count, take, sort_by}
use flyto_warroom.Platform.Sorting.{IsLowest, take-sort_by-IsLowest}
use flyto_warroom.Platform.Health.{
  Grade, grade_a, grade_b, grade_c, grade_d, grade_f, deduction, deducted, display_score,
  findings_of, HealthRow, GradeDist, HealthSummary, health_row, add_row, add_rows, empty_summary,
  finish, is_scanned, RiskRow, health_summary, summarise, active_scans, list_repositories,
}

pub display_score_bounds : (fs : List Finding) → (250 ≤ display_score fs) × (display_score fs ≤ 900)
unfolding display_score
display_score_bounds fs = ground arith

-- Another finding costs 8 to 100 points down to the floor.
pub another_finding :
    (f : Finding) (fs : List Finding)
    → (display_score (f ∷ fs) ≤ display_score fs)
      × (display_score fs ≤ display_score (f ∷ fs) + 100)
      × (display_score (f ∷ fs) ≡ display_score fs → display_score fs ≡ 250)
unfolding display_score deducted deduction
another_finding f fs = ground arith

-- The lowest score of a grade.
abbrev floor_of : Grade → ℕ
floor_of grade_a = 800
floor_of grade_b = 700
floor_of grade_c = 600
floor_of grade_d = 500
floor_of grade_f = 0

abbrev pub graded : GradeDist → ℕ
graded g = g.a + g.b + g.c + g.d + g.f

abbrev sum_scores : List HealthRow → ℕ
sum_scores [] = 0
sum_scores (r ∷ rs) = r.score + sum_scores rs

abbrev sum_critical : List HealthRow → ℕ
sum_critical [] = 0
sum_critical (r ∷ rs) = r.critical_count + sum_critical rs

abbrev sum_high : List HealthRow → ℕ
sum_high [] = 0
sum_high (r ∷ rs) = r.high_count + sum_high rs

abbrev same_grade : Grade → Grade → Bool
same_grade grade_a grade_a = true
same_grade grade_b grade_b = true
same_grade grade_c grade_c = true
same_grade grade_d grade_d = true
same_grade grade_f grade_f = true
same_grade _ _ = false

abbrev has_grade : Grade → HealthRow → Bool
has_grade g r = same_grade g r.grade

abbrev risk_of : HealthRow → RiskRow
risk_of r = record { repo_id = r.repo_id; grade = r.grade; score = r.score }

-- The counts of a summary are those of its rows.
abbrev IsCounted : HealthSummary → Type 0
IsCounted s =
    let g = s.aggregated in
    (g.grade_dist.a ≡ count (has_grade grade_a) s.repos)
    × (g.grade_dist.b ≡ count (has_grade grade_b) s.repos)
    × (g.grade_dist.c ≡ count (has_grade grade_c) s.repos)
    × (g.grade_dist.d ≡ count (has_grade grade_d) s.repos)
    × (g.grade_dist.f ≡ count (has_grade grade_f) s.repos)
    × (graded g.grade_dist ≡ length s.repos)
    × (g.at_risk_count ≡ g.grade_dist.d + g.grade_dist.f)
    × (g.secure_count ≡ g.grade_dist.a + g.grade_dist.b)
    × (g.critical_count ≡ sum_critical s.repos)
    × (g.high_count ≡ sum_high s.repos)
    × (s.scanned_count ≡ count (λ r. is_scanned r.scanned_at) s.repos)

-- What holds of a summary before the average is taken.
abbrev IsTallied : HealthSummary → Type 0
IsTallied s =
    IsCounted s
    × (s.aggregated.top_risks ≡ map risk_of s.repos)
    × (s.aggregated.avg_score ≡ sum_scores s.repos)
    × (250 * length s.repos ≤ sum_scores s.repos)
    × (sum_scores s.repos ≤ 900 * length s.repos)

add_row-IsCounted : (row : HealthRow) (s : HealthSummary) → IsCounted s → IsCounted (add_row row s)
unfolding select
add_row-IsCounted row s (a, b, c, d, f, g, r, q, n, h, k) =
    ground (arith, a, b, c, d, f, g, r, q, n, h, k)

add_row-IsTallied :
    (row : HealthRow) (s : HealthSummary)
    → 250 ≤ row.score
    → row.score ≤ 900
    → IsTallied s
    → IsTallied (add_row row s)
add_row-IsTallied row s lo hi (counts, risks, sum, l, h) = (
  add_row-IsCounted row s counts,
  ap (λ rs. risk_of row ∷ rs) risks,
  omega (arith, sum),
  omega (arith, lo, l),
  omega (arith, hi, h),
)

tallied :
    (db : Db) (rs : List Repository) (total active : ℕ)
    → IsTallied (add_rows db rs (empty_summary total active))
      × (length (add_rows db rs (empty_summary total active)).repos ≡ length rs)
unfolding add_rows health_row select
tallied db [] total active = (
  (
    (refl, refl, refl, refl, refl, refl, refl, refl, refl, refl, refl),
    refl,
    refl,
    omega arith,
    omega arith,
  ),
  refl,
)
tallied db (r ∷ rs) total active =
    let (rest, same) = tallied db rs total active in
    let (lo, hi) = display_score_bounds (findings_of db r.id) in
    (
      add_row-IsTallied (health_row r (findings_of db r.id))
          (add_rows db rs (empty_summary total active)) lo hi rest,
      omega (arith, same),
    )

total-kept :
    (db : Db) (rs : List Repository) (total active : ℕ)
    → (add_rows db rs (empty_summary total active)).total_count ≡ total
unfolding add_rows
total-kept db [] total active = refl
total-kept db (r ∷ rs) total active = total-kept db rs total active

average_bounds :
    (n sum : ℕ) → 250 * n ≤ sum → sum ≤ 900 * n → 0 < n → (250 ≤ sum / n) × (sum / n ≤ 900)
average_bounds n sum lo hi some_row =
    ((le-div_iff_mul-le some_row).1 lo, div-le_of_le-mul n (omega (arith, hi)))

-- The average of the rows' scores, when there is a row.
abbrev IsAveraged : HealthSummary → Type 0
IsAveraged s =
    (s.aggregated.avg_score
      ≡ (if ltb 0 s.total_count then sum_scores s.repos / s.total_count else 0))
    × ((s.total_count ≡ 0) ⊎ ((250 ≤ s.aggregated.avg_score) × (s.aggregated.avg_score ≤ 900)))

-- What a summary that is returned says.
abbrev pub IsConsistent : HealthSummary → Type 0
IsConsistent s =
    (length s.repos ≡ s.total_count)
    × IsCounted s
    × IsAveraged s
    × IsLowest (λ r. r.score) 5 (map risk_of s.repos) s.aggregated.top_risks

finish-IsAveraged :
    (s : HealthSummary) → IsTallied s → length s.repos ≡ s.total_count → IsAveraged (finish s)
unfolding finish
finish-IsAveraged s (counts, risks, sum, l, h) same = elim (Bool-cases (ltb 0 s.total_count)) [
  | inl some_row ↦
      let bounds =
        average_bounds s.total_count (sum_scores s.repos) (omega (arith, l, same))
          (omega (arith, h, same)) (ground (arith, some_row)) in
      (ground (arith, some_row, same, sum), inr (ground (arith, bounds, some_row, sum)))
  | inr e ↦ (ground (arith, e, sum, h, same), inl (ground (arith, e)))
]

finish-IsConsistent :
    (s : HealthSummary) → IsTallied s → length s.repos ≡ s.total_count → IsConsistent (finish s)
unfolding finish
finish-IsConsistent s (counts, risks, sum, l, h) same = (
  same,
  counts,
  finish-IsAveraged s (counts, risks, sum, l, h) same,
  subst
      (λ rs.
        IsLowest (λ r. r.score) 5 rs
          (take 5 (sort_by (λ x y. leb x.score y.score) s.aggregated.top_risks)))
      risks (take-sort_by-IsLowest (λ r. r.score) 5 s.aggregated.top_risks),
)

-- Of what is returned.
abbrev OfAnswer : (HealthSummary → Type 0) → Answer HealthSummary → Type 0
OfAnswer P (refuse e) = Unit {0}
OfAnswer P (answer s) = P s

summarise-IsConsistent :
    (db : Db) (id : String) (repos : Answer (List Repository))
    → OfAnswer IsConsistent (summarise db id repos)
unfolding summarise
summarise-IsConsistent db id (refuse e) = tt
summarise-IsConsistent db id (answer rs) =
    let (t, same) = tallied db rs (length rs) (active_scans db id) in
    finish-IsConsistent (add_rows db rs (empty_summary (length rs) (active_scans db id))) t
      (omega (arith, same, total-kept db rs (length rs) (active_scans db id)))

-- A summary that is returned agrees with its rows: each grade's count, the counts at risk (D and F) and
-- secure (A and B), the sums of critical and of high findings and the number of scanned repositories;
-- every row has one of the grades. Its average is the sum of the rows' scores over their number, rounded
-- down and from 250 to 900, when there is a row, else 0. Its risks are the five rows of the lowest scores
-- (all rows, when there are fewer), ascending, and no row that is left out has a lower score.
pub summary-IsConsistent :
    (db : Db) (user id : String) (s : HealthSummary)
    → health_summary db user id ≡ answer s
    → IsConsistent s
unfolding health_summary
summary-IsConsistent db user id s h =
    subst (OfAnswer IsConsistent) h (summarise-IsConsistent db id (list_repositories db user id))
