-- ===== src/Sla/Budget.antt =====
-- What the status of a budget row says, and how it depends on the breaches.
use flyto_warroom.Prelude.{
  ℕ, ◌+◌, ◌-◌, ◌*◌, ◌≤◌, ◌<◌, ◌≡◌, ◌↔◌, Bool, true, false, List, ◌∷◌, arith, select,
}
use flyto_warroom.Sla.{
  Status, inactive, healthy, warning, exhausted, PolicyInput, Breach, BudgetUsage, budget_row,
  classify_status, alert_at, reaches,
}

-- What each status means, of a row.
pub record Means (p : PolicyInput) (row : BudgetUsage) : Type 0 where
  pub means_inactive : (row.status ≡ inactive) ↔ (p.is_active ≡ false)
  pub means_exhausted :
      (row.status ≡ exhausted)
      ↔ ((p.is_active ≡ true) × (p.allowed_breaches ≤ row.used_breaches) × (0 < row.used_breaches))
  pub means_warning : (row.status ≡ warning) ↔ (
      (p.is_active ≡ true)
      × (row.used_breaches < p.allowed_breaches)
      × (row.alert_at_percent * p.allowed_breaches ≤ 100 * row.used_breaches))
  pub remaining :
      row.remaining_breaches + row.used_breaches
      ≡ p.allowed_breaches + (row.used_breaches - p.allowed_breaches)
  pub alert_in_range : (0 < row.alert_at_percent) × (row.alert_at_percent ≤ 100)

alert_range : (p : PolicyInput) → (0 < alert_at p) × (alert_at p ≤ 100)
unfolding alert_at
alert_range p = ground arith

-- A row is inactive when its policy is; exhausted when an active policy has a breach and at least as
-- many as allowed; a warning when fewer than allowed, but the alert percentage of the allowed or more.
-- The remaining breaches are the allowed less the used, and 0 where that is negative; the alert
-- percentage is between 1 and 100.
pub budget_row-Means :
    (p : PolicyInput) (breaches : List Breach) (now : ℕ) → Means p (budget_row p breaches now)
unfolding budget_row classify_status reaches
budget_row-Means p breaches now =
    let (pos, le) = alert_range p in
    record {
      means_inactive = ground arith;
      means_exhausted = ground arith;
      means_warning = ground arith;
      remaining = omega arith;
      alert_in_range = (pos, le);
    }

-- How bad a status of an active policy is.
pub level : Status → ℕ
level inactive = 0
level healthy = 0
level warning = 1
level exhausted = 2

classify_monotone :
    (active : Bool) (used used' allowed alert : ℕ)
    → used ≤ used'
    → level (classify_status active used allowed alert)
      ≤ level (classify_status active used' allowed alert)
unfolding classify_status level
classify_monotone active used used' allowed alert h = ground arith

-- One more breach never improves a row's status.
pub more_breaches_no_better :
    (p : PolicyInput) (b : Breach) (breaches : List Breach) (now : ℕ)
    → level (budget_row p breaches now).status ≤ level (budget_row p (b ∷ breaches) now).status
unfolding budget_row select
more_breaches_no_better p b breaches now =
    classify_monotone p.is_active _ _ p.allowed_breaches (alert_at p) (ground arith)
