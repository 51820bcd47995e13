-- ===== src/Sla.antt =====
-- internal/sla: the error budget (budget.go) and the ages of open findings (aging.go, in `Aging`).
-- Instants are counted in nanoseconds from an origin before every window; the zero instant is `none`. A
-- percentage is the fraction that the source divides in floating point.
pub mod Budget
pub mod Order
pub mod Aging
mod Tests
use flyto_warroom.Prelude.{
  ℕ, zero, suc, ◌+◌, ◌-◌, ◌*◌, String, Bool, true, false, not, ◌&&◌, ◌||◌, Option, none, some, List,
  [], ◌∷◌, ◌==◌, ltb, leb, if◌then◌else◌, str_eq, to_lower, any, select, length,
}

abbrev pub day : ℕ
day = 24 * 3_600_000_000_000

pub record Breach : Type 0 where
  pub id : String
  pub severity : String
  pub breach_at : Option ℕ
  pub resolved_at : Option ℕ

-- `AllowedBreaches` and the other counts are not negative here: 0 stands for what is not positive.
pub record PolicyInput : Type 0 where
  pub severity : String
  pub allowed_breaches : ℕ
  pub window_days : ℕ
  pub alert_at_percent : ℕ
  pub is_active : Bool

pub data Status : Type 0 where
  inactive healthy warning exhausted : Status

-- A number as a fraction, of a denominator that is not 0.
pub record Fraction : Type 0 where
  pub over : ℕ
  pub under : ℕ

pub record BudgetUsage : Type 0 where
  pub severity : String
  pub allowed_breaches : ℕ
  pub used_breaches : ℕ
  pub remaining_breaches : ℕ
  pub used_percent : Fraction
  pub window_start : ℕ
  pub window_end : ℕ
  pub alert_at_percent : ℕ
  pub status : Status

-- `100.0 * used / allowed >= alertAt`, for `allowed` above 0
pub reaches : (used allowed alert_at : ℕ) → Bool
reaches used allowed alert_at = leb (alert_at * allowed) (100 * used)

pub classify_status : (active : Bool) → (used allowed alert_at : ℕ) → Status
unfolding reaches
classify_status active used allowed alert_at =
    if not active
    then inactive
    else if leb allowed 0
    then if used == 0 then healthy else exhausted
    else if leb allowed used
    then exhausted
    else if reaches used allowed alert_at
    then warning
    else healthy

-- `After(windowStart) && !After(now)`
in_window_at : (start now : ℕ) → Option ℕ → Bool
in_window_at start now none = false
in_window_at start now (some t) = ltb start t && not (ltb now t)

-- A breach of the severity in the window; one without an instant is dropped.
pub counted : (severity : String) → (start now : ℕ) → Breach → Bool
unfolding in_window_at
counted severity start now b =
    str_eq (to_lower b.severity) severity && in_window_at start now b.breach_at

pub window_days : PolicyInput → ℕ
window_days p = if p.window_days == 0 then 90 else p.window_days

pub alert_at : PolicyInput → ℕ
alert_at p =
    if p.alert_at_percent == 0 || ltb 100 p.alert_at_percent then 80 else p.alert_at_percent

percent_used : (used allowed : ℕ) → Fraction
percent_used used allowed =
    if ltb 0 allowed
    then record { over = 100 * used; under = allowed }
    else if ltb 0 used
    then record { over = 100; under = 1 }
    else record { over = 0; under = 1 }

pub budget_row : PolicyInput → List Breach → ℕ → BudgetUsage
unfolding counted window_days alert_at percent_used
budget_row p breaches now =
    let sev = to_lower p.severity in
    let start = now - window_days p * day in
    let used = length (select (counted sev start now) breaches) in
    record {
      severity = sev;
      allowed_breaches = p.allowed_breaches;
      used_breaches = used;
      remaining_breaches = p.allowed_breaches - used;
      used_percent = percent_used used p.allowed_breaches;
      window_start = start;
      window_end = now;
      alert_at_percent = alert_at p;
      status = classify_status p.is_active used p.allowed_breaches (alert_at p);
    }

-- The loop over the policies: the first of each severity counts.
pub budget_rows : List PolicyInput → List Breach → ℕ → (seen : List String) → List BudgetUsage
unfolding budget_row
budget_rows [] breaches now seen = []
budget_rows (p ∷ ps) breaches now seen =
    let skipped = budget_rows ps breaches now seen in
    let rest = budget_rows ps breaches now (to_lower p.severity ∷ seen) in
    if any (str_eq (to_lower p.severity)) seen then skipped else budget_row p breaches now ∷ rest

pub rank : String → ℕ
rank s =
    if str_eq s "critical"
    then 0
    else if str_eq s "high"
    then 1
    else if str_eq s "medium"
    then 2
    else if str_eq s "low"
    then 3
    else 4

-- The inner loop of the sort, on the sorted part from its end: the row moves before each of a
-- greater rank.
pub sink : BudgetUsage → (sorted_reversed : List BudgetUsage) → List BudgetUsage
sink x [] = x ∷ []
sink x (y ∷ ys) =
    let rest = sink x ys in if ltb (rank x.severity) (rank y.severity) then y ∷ rest else x ∷ y ∷ ys

-- The outer loop; the sorted part is kept from its end.
pub sort_reversed : (sorted_reversed rows : List BudgetUsage) → List BudgetUsage
unfolding sink
sort_reversed acc [] = acc
sort_reversed acc (x ∷ xs) = sort_reversed (sink x acc) xs

pub rev_onto : List BudgetUsage → List BudgetUsage → List BudgetUsage
rev_onto [] acc = acc
rev_onto (x ∷ xs) acc = rev_onto xs (x ∷ acc)

pub sort_by_severity : List BudgetUsage → List BudgetUsage
unfolding sort_reversed rev_onto
sort_by_severity rows = rev_onto (sort_reversed [] rows) []

pub compute_usage : List PolicyInput → List Breach → ℕ → List BudgetUsage
unfolding budget_rows sort_by_severity
compute_usage policies breaches now = sort_by_severity (budget_rows policies breaches now [])
