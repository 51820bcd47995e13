-- ===== src/Sla/Aging/Totals.antt =====
-- The accumulators of the ages: how the totals, the severities and the buckets are related.
use flyto_warroom.Prelude.{
  ℕ, suc, ◌+◌, ◌≤◌, ◌≡◌, refl, ◌∙◌, Bool, true, false, not, some, List, [], ◌∷◌, length, select,
  arith, String, if_elim, if◌then◌else◌, str_eq,
}
use flyto_warroom.Prelude.Dict.{Dict, lookup, insert}
use flyto_warroom.Sla.Aging.{
  FindingAge, Buckets, Acc, zero_acc, add_to_bucket, add_finding, add_age, add_overdue, step,
  accumulate, age_buckets, normalize_severity, full_days_between, is_overdue, acc_or_zero, report,
}

abbrev pub bucket_sum : Buckets → ℕ
bucket_sum m = m.age_0to7 + m.age_8to30 + m.age_31to90 + m.age_90plus

-- The parts of an accumulator agree.
pub record IsCoherent (a : Acc) : Type 0 where
  pub ages_counted : bucket_sum a.age_bucket ≡ a.open_findings
  pub overdues_counted : bucket_sum a.ov_bucket ≡ a.overdue
  pub same_count : a.breached ≡ a.overdue
  pub no_more : a.overdue ≤ a.open_findings
  pub oldest_in_sum : a.oldest ≤ a.age_sum

bucket_sum-add : (days : ℕ) (m : Buckets) → bucket_sum (add_to_bucket days m) ≡ suc (bucket_sum m)
unfolding add_to_bucket
bucket_sum-add days m = ground arith

add_finding-IsCoherent :
    (f : FindingAge) (now : ℕ) (a : Acc) → IsCoherent a → IsCoherent (add_finding f now a)
unfolding add_finding add_age add_overdue
add_finding-IsCoherent f now a c =
    let days = full_days_between f.first_seen_at now in
    let over = full_days_between f.sla_breach_at now in
    let aged = bucket_sum-add days a.age_bucket in
    let late = bucket_sum-add over a.ov_bucket in
    if_elim IsCoherent (is_overdue f.sla_breach_at now)
      (λ h. record {
        ages_counted = omega (arith, aged, c.ages_counted);
        overdues_counted = omega (arith, late, c.overdues_counted);
        same_count = omega (arith, c.same_count);
        no_more = omega (arith, c.no_more);
        oldest_in_sum = ground (arith, c.oldest_in_sum);
      })
      (λ h. record {
        ages_counted = omega (arith, aged, c.ages_counted);
        overdues_counted = c.overdues_counted;
        same_count = c.same_count;
        no_more = omega (arith, c.no_more);
        oldest_in_sum = ground (arith, c.oldest_in_sum);
      })

-- The sum of a field over the severities.
pub sum_of : (Acc → ℕ) → Dict Acc → ℕ
sum_of field [] = 0
sum_of field ((k, a) ∷ m) = field a + sum_of field m

-- Of every severity, and of the totals.
pub AllCoherent : Dict Acc → Type 0
AllCoherent [] = Unit
AllCoherent ((k, a) ∷ m) = IsCoherent a × AllCoherent m

sum_of_split :
    (found : Bool) (field : Acc → ℕ) (k j : String) (b a : Acc) (m : Dict Acc)
    → sum_of field (insert k b m) + field (acc_or_zero (lookup k m)) ≡ sum_of field m + field b
    → sum_of field (if found then (k, b) ∷ m else (j, a) ∷ insert k b m)
        + field (acc_or_zero (if found then some a else lookup k m))
      ≡ field a + sum_of field m + field b
unfolding sum_of acc_or_zero
sum_of_split true field k j b a m h = omega arith
sum_of_split false field k j b a m h = omega (arith, h)

-- Putting `b` in the place of `k`'s accumulator changes the sum by the difference.
sum_of-insert :
    (field : Acc → ℕ) (k : String) (b : Acc) (m : Dict Acc)
    → field zero_acc ≡ 0
    → sum_of field (insert k b m) + field (acc_or_zero (lookup k m)) ≡ sum_of field m + field b
unfolding sum_of insert lookup acc_or_zero
sum_of-insert field k b [] z = omega (arith, z)
sum_of-insert field k b ((j, a) ∷ m) z =
    sum_of_split (str_eq j k) field k j b a m (sum_of-insert field k b m z)

insert-AllCoherent :
    (k : String) (b : Acc) (m : Dict Acc)
    → IsCoherent b
    → AllCoherent m
    → AllCoherent (insert k b m)
unfolding AllCoherent insert
insert-AllCoherent k b [] c all = (c, tt)
insert-AllCoherent k b ((j, a) ∷ m) c (ca, all) =
    if_elim AllCoherent (str_eq j k) (λ h. (c, all)) (λ h. (ca, insert-AllCoherent k b m c all))

-- A count to which each finding adds what does not depend on the findings before it.
pub record IsCount (field : Acc → ℕ) : Type 0 where
  pub starts : field zero_acc ≡ 0
  pub gain : FindingAge → ℕ → ℕ
  pub grows :
      (f : FindingAge) (now : ℕ) (a : Acc) → field (add_finding f now a) ≡ field a + gain f now

open-IsCount : IsCount (λ a. a.open_findings)
unfolding add_finding add_age add_overdue
open-IsCount = record { starts = refl; gain = λ f now. 1; grows = λ f now a. ground arith }

overdue-IsCount : IsCount (λ a. a.overdue)
unfolding add_finding add_age add_overdue
overdue-IsCount = record {
  starts = refl;
  gain = λ f now. if is_overdue f.sla_breach_at now then 1 else 0;
  grows = λ f now a. ground arith;
}

age-IsCount : IsCount (λ a. a.age_sum)
unfolding add_finding add_age add_overdue
age-IsCount = record {
  starts = refl;
  gain = λ f now. full_days_between f.first_seen_at now;
  grows = λ f now a. ground arith;
}

-- The totals are the sums, and everything is coherent.
pub record IsBalanced (s : Dict Acc × Acc) : Type 0 where
  pub sums : (field : Acc → ℕ) → IsCount field → sum_of field s.0 ≡ field s.1
  pub severities : AllCoherent s.0
  pub total : IsCoherent s.1

IsCoherent-found :
    (k : String) (m : Dict Acc) → AllCoherent m → IsCoherent (acc_or_zero (lookup k m))
unfolding AllCoherent lookup acc_or_zero
IsCoherent-found k [] all = record {
  ages_counted = refl;
  overdues_counted = refl;
  same_count = refl;
  no_more = omega arith;
  oldest_in_sum = omega arith;
}
IsCoherent-found k ((j, a) ∷ m) (c, all) =
    if_elim (λ o. IsCoherent (acc_or_zero o)) (str_eq j k) (λ h. c) (λ h. IsCoherent-found k m all)

step-IsBalanced :
    (f : FindingAge) (now : ℕ) (s : Dict Acc × Acc) → IsBalanced s → IsBalanced (step f now s)
unfolding step
step-IsBalanced f now (m, t) b =
    let sev = normalize_severity f.severity in
    let old = acc_or_zero (lookup sev m) in
    if_elim IsBalanced f.resolved (λ h. b)
      (λ h. record {
        sums = λ field c. omega (
          arith,
          sum_of-insert field sev (add_finding f now old) m c.starts,
          b.sums field c,
          c.grows f now old,
          c.grows f now t,
        );
        severities =
            insert-AllCoherent sev (add_finding f now old) m
              (add_finding-IsCoherent f now old (IsCoherent-found sev m b.severities)) b.severities;
        total = add_finding-IsCoherent f now t b.total;
      })

-- However the findings are accumulated, from a balanced state on: the totals are the sums over the
-- severities of every count (open, overdue, days), and of each severity and of the totals the age
-- buckets add up to the open findings and the overdue buckets to the overdue ones, which are as many as
-- the breached and no more than the open; the oldest age is within the sum of the ages.
pub accumulate-IsBalanced :
    (findings : List FindingAge) (now : ℕ) (s : Dict Acc × Acc)
    → IsBalanced s
    → IsBalanced (accumulate findings now s)
unfolding accumulate
accumulate-IsBalanced [] now s b = b
accumulate-IsBalanced (f ∷ fs) now s b =
    accumulate-IsBalanced fs now (step f now s) (step-IsBalanced f now s b)

pub empty-IsBalanced : IsBalanced ([], zero_acc)
unfolding sum_of AllCoherent acc_or_zero lookup
empty-IsBalanced = record {
  sums = λ field c. omega (arith, c.starts);
  severities = tt;
  total = IsCoherent-found "" [] tt;
}

abbrev pub unresolved : List FindingAge → ℕ
unresolved findings = length (select (λ f. not f.resolved) findings)

accumulate_open :
    (findings : List FindingAge) (now : ℕ) (s : Dict Acc × Acc)
    → (accumulate findings now s).1.open_findings ≡ unresolved findings + s.1.open_findings
unfolding accumulate select step
accumulate_open [] now s = omega arith
accumulate_open (f ∷ fs) now (m, t) =
    accumulate_open fs now (step f now (m, t)) ∙ ground (arith, open-IsCount.grows f now t)

-- The report counts every unresolved finding once, as many breached as overdue, and no more of
-- them than open.
pub age_buckets_totals :
    (findings : List FindingAge) (now : ℕ)
    → ((age_buckets findings now).total_open ≡ unresolved findings)
      × ((age_buckets findings now).total_breached ≡ (age_buckets findings now).total_overdue)
      × ((age_buckets findings now).total_overdue ≤ (age_buckets findings now).total_open)
unfolding age_buckets report
age_buckets_totals findings now =
    let c = (accumulate-IsBalanced findings now ([], zero_acc) empty-IsBalanced).total in
    (accumulate_open findings now ([], zero_acc) ∙ omega arith, c.same_count, c.no_more)
