-- ===== src/Sla/Aging.antt =====
-- internal/sla/aging.go: the ages of the open findings, per severity. The map of severities is the
-- list in which Go's iteration, whose order is not fixed, may yield it; the sort makes one order of
-- it. The four keys of a bucket map are four fields. An average is the fraction before rounding.
pub mod Totals
use flyto_warroom.Prelude.{
  ℕ, zero, suc, ◌+◌, ◌-◌, ◌*◌, ◌/◌, String, Bool, true, false, not, ◌&&◌, ◌||◌, Option, none, some,
  List, [], ◌∷◌, map, ltb, leb, if◌then◌else◌, str_eq, to_lower, trim_space, ◌==◌,
}
use Prim.Native.String.{compare}
use Prim.Native.Nat.{Ordering}
use flyto_warroom.Prelude.Dict.{Dict, lookup, insert}
use flyto_warroom.Sla.{Fraction, day, rank}

pub record FindingAge : Type 0 where
  pub severity : String
  pub first_seen_at : Option ℕ
  pub sla_breach_at : Option ℕ
  pub resolved : Bool

pub record Buckets : Type 0 where
  pub age_0to7 : ℕ
  pub age_8to30 : ℕ
  pub age_31to90 : ℕ
  pub age_90plus : ℕ

abbrev pub zero_buckets : Buckets
zero_buckets = record { age_0to7 = 0; age_8to30 = 0; age_31to90 = 0; age_90plus = 0 }

-- `m[ageBucket(days)]++`
pub add_to_bucket : ℕ → Buckets → Buckets
add_to_bucket days m =
    if leb days 7
    then record m { age_0to7 = suc m.age_0to7 }
    else if leb days 30
    then record m { age_8to30 = suc m.age_8to30 }
    else if leb days 90
    then record m { age_31to90 = suc m.age_31to90 }
    else record m { age_90plus = suc m.age_90plus }

-- Full days, and 0 where the source's are negative, as its caller makes them.
pub full_days_between : Option ℕ → ℕ → ℕ
full_days_between none end = 0
full_days_between (some start) end = (end - start) / day

normalized : String → String
normalized s = if str_eq s "moderate" then "medium" else if str_eq s "" then "low" else s

pub normalize_severity : String → String
unfolding normalized
normalize_severity s = normalized (to_lower (trim_space s))

-- The accumulator of one severity, and of all.
pub record Acc : Type 0 where
  pub open_findings : ℕ
  pub breached : ℕ
  pub overdue : ℕ
  pub oldest : ℕ
  pub age_sum : ℕ
  pub age_bucket : Buckets
  pub ov_bucket : Buckets

abbrev pub zero_acc : Acc
zero_acc = record {
  open_findings = 0;
  breached = 0;
  overdue = 0;
  oldest = 0;
  age_sum = 0;
  age_bucket = zero_buckets;
  ov_bucket = zero_buckets;
}

-- `!f.SLABreachAt.IsZero() && now.After(f.SLABreachAt)`
pub is_overdue : Option ℕ → ℕ → Bool
is_overdue none now = false
is_overdue (some t) now = ltb t now

pub add_age : ℕ → Acc → Acc
unfolding add_to_bucket
add_age days a = record a {
  open_findings = suc a.open_findings;
  age_sum = a.age_sum + days;
  oldest = if ltb a.oldest days then days else a.oldest;
  age_bucket = add_to_bucket days a.age_bucket;
}

pub add_overdue : ℕ → Acc → Acc
unfolding add_to_bucket
add_overdue days a = record a {
  breached = suc a.breached;
  overdue = suc a.overdue;
  ov_bucket = add_to_bucket days a.ov_bucket;
}

-- What one open finding adds.
pub add_finding : FindingAge → ℕ → Acc → Acc
unfolding add_age add_overdue is_overdue full_days_between
add_finding f now a =
    let aged = add_age (full_days_between f.first_seen_at now) a in
    if is_overdue f.sla_breach_at now
    then add_overdue (full_days_between f.sla_breach_at now) aged
    else aged

pub acc_or_zero : Option Acc → Acc
acc_or_zero none = zero_acc
acc_or_zero (some a) = a

-- One finding, in the accumulators of the severities and in the totals.
pub step : FindingAge → ℕ → Dict Acc × Acc → Dict Acc × Acc
unfolding acc_or_zero add_finding normalize_severity
step f now (by_sev, total) =
    let sev = normalize_severity f.severity in
    if f.resolved then (by_sev, total) else (
      insert sev (add_finding f now (acc_or_zero (lookup sev by_sev))) by_sev,
      add_finding f now total,
    )

pub accumulate : List FindingAge → ℕ → Dict Acc × Acc → Dict Acc × Acc
unfolding step
accumulate [] now s = s
accumulate (f ∷ fs) now s = accumulate fs now (step f now s)

pub record SeverityAging : Type 0 where
  pub severity : String
  pub open_count : ℕ
  pub breached_count : ℕ
  pub overdue_count : ℕ
  pub oldest_age_days : ℕ
  pub avg_age_days : Option Fraction
  pub age_buckets : Buckets
  pub overdue_buckets : Buckets

pub record AgingReport : Type 0 where
  pub by_severity : List SeverityAging
  pub total_open : ℕ
  pub total_breached : ℕ
  pub total_overdue : ℕ
  pub oldest_open_days : ℕ
  pub avg_age_days : Option Fraction
  pub generated_at : ℕ

average : (sum count : ℕ) → Option Fraction
average sum count = if ltb 0 count then some (record { over = sum; under = count }) else none

pub severity_row : String × Acc → SeverityAging
unfolding average
severity_row (sev, a) = record {
  severity = sev;
  open_count = a.open_findings;
  breached_count = a.breached;
  overdue_count = a.overdue;
  oldest_age_days = a.oldest;
  avg_age_days = average a.age_sum a.open_findings;
  age_buckets = a.age_bucket;
  overdue_buckets = a.ov_bucket;
}

-- `rp < rc || (rp == rc && sevs[j-1] <= sevs[j])`
pub in_order : String → String → Bool
in_order p c =
    ltb (rank p) (rank c)
    || rank p == rank c && elim (compare p c) [ Ordering.gt ↦ false | _ ↦ true ]

-- The sort's inner loop, on the sorted part from its end.
pub sink_severity : String → (sorted_reversed : List String) → List String
unfolding in_order
sink_severity c [] = c ∷ []
sink_severity c (p ∷ ps) =
    let rest = sink_severity c ps in if in_order p c then c ∷ p ∷ ps else p ∷ rest

sort_severities_onto : (sorted_reversed sevs : List String) → List String
unfolding sink_severity
sort_severities_onto acc [] = acc
sort_severities_onto acc (c ∷ cs) = sort_severities_onto (sink_severity c acc) cs

rev_names : List String → List String → List String
rev_names [] acc = acc
rev_names (x ∷ xs) acc = rev_names xs (x ∷ acc)

pub sort_severities : List String → List String
unfolding sort_severities_onto rev_names
sort_severities sevs = rev_names (sort_severities_onto [] sevs) []

pub severity_of : Dict Acc → String → SeverityAging
unfolding acc_or_zero severity_row
severity_of by_sev sev = severity_row (sev, acc_or_zero (lookup sev by_sev))

pub report : Dict Acc × Acc → ℕ → AgingReport
unfolding severity_of sort_severities average
report (by_sev, total) now = record {
  by_severity = map (severity_of by_sev) (sort_severities (map (λ e. e.0) by_sev));
  total_open = total.open_findings;
  total_breached = total.breached;
  total_overdue = total.overdue;
  oldest_open_days = total.oldest;
  avg_age_days = average total.age_sum total.open_findings;
  generated_at = now;
}

pub age_buckets : List FindingAge → ℕ → AgingReport
unfolding report accumulate
age_buckets findings now = report (accumulate findings now ([], zero_acc)) now
