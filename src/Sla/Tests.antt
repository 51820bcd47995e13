-- ===== src/Sla/Tests.antt =====
-- The budget and the ages on concrete findings.
use flyto_warroom.Prelude.{
  ℕ, ◌-◌, ◌*◌, ◌≤◌, ◌≡◌, refl, Bool, true, false, none, some, List, [], ◌∷◌, map, select, to_lower,
  any,
}
use flyto_warroom.Sla.{
  Breach, PolicyInput, warning, budget_row, budget_rows, compute_usage, day, classify_status, rank,
}
use flyto_warroom.Sla.Budget.{Means, budget_row-Means, level, more_breaches_no_better}
use flyto_warroom.Sla.Order.{Ascending, of_rank, compute_usage_sorted}
use flyto_warroom.Sla.Aging.{FindingAge, zero_acc, accumulate, age_buckets}
use flyto_warroom.Sla.Aging.Totals.{
  IsBalanced, accumulate-IsBalanced, empty-IsBalanced, unresolved, age_buckets_totals,
}

abbrev today : ℕ
today = 20_000 * day

abbrev policy : PolicyInput
policy = record {
  severity = "Critical";
  allowed_breaches = 4;
  window_days = 90;
  alert_at_percent = 75;
  is_active = true;
}

abbrev low_policy : PolicyInput
low_policy = record {
  severity = "low";
  allowed_breaches = 1;
  window_days = 30;
  alert_at_percent = 80;
  is_active = true;
}

breach_before : ℕ → Breach
breach_before days = record {
  id = "b";
  severity = "critical";
  breach_at = some (today - days * day);
  resolved_at = none;
}

abbrev three_breaches : List Breach
three_breaches = breach_before 30 ∷ breach_before 10 ∷ breach_before 5 ∷ []

three_of_four_warns : (budget_row policy three_breaches today).status ≡ warning
unfolding budget_row select to_lower breach_before classify_status
three_of_four_warns = refl

sorted_by_rank :
    map (λ r. r.severity) (compute_usage (low_policy ∷ policy ∷ []) three_breaches today)
    ≡ "critical" ∷ "low" ∷ []
unfolding compute_usage select to_lower breach_before any rank
sorted_by_rank = refl

budget_row-Means_holds : Means policy (budget_row policy three_breaches today)
budget_row-Means_holds = budget_row-Means policy three_breaches today

more_breaches_no_better_holds :
    level (budget_row policy three_breaches today).status
    ≤ level (budget_row policy (breach_before 1 ∷ three_breaches) today).status
more_breaches_no_better_holds =
    more_breaches_no_better policy (breach_before 1) three_breaches today

compute_usage_sorted_example :
    Ascending (compute_usage (low_policy ∷ policy ∷ []) three_breaches today)
    × (of_rank 0 (compute_usage (low_policy ∷ policy ∷ []) three_breaches today)
        ≡ of_rank 0 (budget_rows (low_policy ∷ policy ∷ []) three_breaches today []))
compute_usage_sorted_example =
    compute_usage_sorted (low_policy ∷ policy ∷ []) three_breaches today 0

finding_of : ℕ → Bool → FindingAge
finding_of days resolved = record {
  severity = " High ";
  first_seen_at = some (today - days * day);
  sla_breach_at = some (today - 3 * day);
  resolved = resolved;
}

abbrev some_findings : List FindingAge
some_findings = finding_of 5 false ∷ finding_of 40 false ∷ finding_of 100 true ∷ []

accumulate-IsBalanced_example : IsBalanced (accumulate some_findings today ([], zero_acc))
accumulate-IsBalanced_example =
    accumulate-IsBalanced some_findings today ([], zero_acc) empty-IsBalanced

age_buckets_totals_holds :
    ((age_buckets some_findings today).total_open ≡ unresolved some_findings)
    × ((age_buckets some_findings today).total_breached
        ≡ (age_buckets some_findings today).total_overdue)
    × ((age_buckets some_findings today).total_overdue
        ≤ (age_buckets some_findings today).total_open)
age_buckets_totals_holds = age_buckets_totals some_findings today
