-- ===== src/Sla/Order.antt =====
-- The order of the budget rows.
use flyto_warroom.Prelude.{
  ℕ, ◌≤◌, ◌≡◌, refl, ap, ◌∙◌, List, [], ◌∷◌, ◌++◌, arith, select, if_elim, All, ◌==◌, ltb,
}
use flyto_warroom.Sla.{
  BudgetUsage, PolicyInput, Breach, rank, sink, sort_reversed, rev_onto, sort_by_severity,
  compute_usage, budget_rows,
}

-- The rows of one rank.
abbrev pub of_rank : ℕ → List BudgetUsage → List BudgetUsage
of_rank k rows = select (λ r. rank r.severity == k) rows

NoLess : BudgetUsage → BudgetUsage → Type 0
NoLess x y = rank y.severity ≤ rank x.severity

-- From the greatest rank down.
Descending : List BudgetUsage → Type 0
Descending [] = Unit
Descending (x ∷ xs) = All (NoLess x) xs × Descending xs

abbrev pub Ascending : List BudgetUsage → Type 0
Ascending [] = Unit
Ascending (x ∷ xs) = All (λ y. rank x.severity ≤ rank y.severity) xs × Ascending xs

sink-All :
    (y x : BudgetUsage) (acc : List BudgetUsage)
    → rank x.severity ≤ rank y.severity
    → All (NoLess y) acc
    → All (NoLess y) (sink x acc)
unfolding sink NoLess
sink-All y x [] h a = (h, tt)
sink-All y x (z ∷ zs) h (az, azs) =
    if_elim (All (NoLess y)) (ltb (rank x.severity) (rank z.severity))
      (λ e. (az, sink-All y x zs h azs)) (λ e. (h, (az, azs)))

weaken-All :
    (x y : BudgetUsage) (acc : List BudgetUsage)
    → NoLess x y
    → All (NoLess y) acc
    → All (NoLess x) acc
unfolding NoLess
weaken-All x y [] h a = tt
weaken-All x y (z ∷ zs) h (az, azs) = (omega (arith, h, az), weaken-All x y zs h azs)

sink-Descending :
    (x : BudgetUsage) (acc : List BudgetUsage) → Descending acc → Descending (sink x acc)
unfolding sink Descending NoLess
sink-Descending x [] d = (tt, tt)
sink-Descending x (y ∷ ys) (a, d) =
    if_elim Descending (ltb (rank x.severity) (rank y.severity))
      (λ e. (sink-All y x ys (ground arith) a, sink-Descending x ys d))
      (λ e. ((ground arith, weaken-All x y ys (ground arith) a), (a, d)))

sort_reversed-Descending :
    (acc rows : List BudgetUsage) → Descending acc → Descending (sort_reversed acc rows)
unfolding sort_reversed
sort_reversed-Descending acc [] d = d
sort_reversed-Descending acc (x ∷ xs) d =
    sort_reversed-Descending (sink x acc) xs (sink-Descending x acc d)

-- Every row of a list stands before an ascending one.
Below : List BudgetUsage → List BudgetUsage → Type 0
Below [] acc = Unit
Below (x ∷ xs) acc = All (λ y. rank x.severity ≤ rank y.severity) acc × Below xs acc

Below-cons :
    (x : BudgetUsage) (xs acc : List BudgetUsage)
    → All (NoLess x) xs
    → Below xs acc
    → Below xs (x ∷ acc)
unfolding Below NoLess
Below-cons x [] acc a b = tt
Below-cons x (y ∷ ys) acc (ay, ays) (b, bs) = ((ay, b), Below-cons x ys acc ays bs)

rev_onto-Ascending :
    (xs acc : List BudgetUsage)
    → Descending xs
    → Ascending acc
    → Below xs acc
    → Ascending (rev_onto xs acc)
unfolding rev_onto Descending Below
rev_onto-Ascending [] acc d a b = a
rev_onto-Ascending (x ∷ xs) acc (dx, d) a (bx, b) =
    rev_onto-Ascending xs (x ∷ acc) d (bx, a) (Below-cons x xs acc dx b)

Below-nil : (xs : List BudgetUsage) → Below xs []
unfolding Below
Below-nil [] = tt
Below-nil (x ∷ xs) = (tt, Below-nil xs)

sort-Ascending : (rows : List BudgetUsage) → Ascending (sort_by_severity rows)
unfolding sort_by_severity Descending
sort-Ascending rows =
    let d = sort_reversed-Descending [] rows tt in
    rev_onto-Ascending (sort_reversed [] rows) [] d tt (Below-nil _)

of_rank-sink :
    (k : ℕ) (x : BudgetUsage) (acc : List BudgetUsage)
    → of_rank k (sink x acc) ≡ of_rank k (x ∷ acc)
unfolding sink select
of_rank-sink k x [] = refl
of_rank-sink k x (y ∷ ys) = ground (arith, of_rank-sink k x ys)

of_rank-sort_reversed :
    (k : ℕ) (acc rows : List BudgetUsage)
    → of_rank k (sort_reversed acc rows) ≡ rev_onto (of_rank k rows) (of_rank k acc)
unfolding sort_reversed select rev_onto
of_rank-sort_reversed k acc [] = refl
of_rank-sort_reversed k acc (x ∷ xs) =
    of_rank-sort_reversed k (sink x acc) xs
    ∙ ap (rev_onto (of_rank k xs)) (of_rank-sink k x acc)
    ∙ ground arith

of_rank-rev_onto :
    (k : ℕ) (xs acc : List BudgetUsage)
    → of_rank k (rev_onto xs acc) ≡ rev_onto (of_rank k xs) (of_rank k acc)
unfolding select rev_onto
of_rank-rev_onto k [] acc = refl
of_rank-rev_onto k (x ∷ xs) acc = of_rank-rev_onto k xs (x ∷ acc) ∙ ground arith

rev_onto_twice :
    (xs acc rest : List BudgetUsage) → rev_onto (rev_onto xs acc) rest ≡ rev_onto acc (xs ++ rest)
unfolding rev_onto
rev_onto_twice [] acc rest = refl
rev_onto_twice (x ∷ xs) acc rest = rev_onto_twice xs (x ∷ acc) rest

append_nil : (xs : List BudgetUsage) → xs ++ [] ≡ xs
append_nil [] = refl
append_nil (x ∷ xs) = ap (◌∷◌ x) (append_nil xs)

of_rank-sort_by_severity :
    (k : ℕ) (rows : List BudgetUsage) → of_rank k (sort_by_severity rows) ≡ of_rank k rows
unfolding sort_by_severity select rev_onto
of_rank-sort_by_severity k rows =
    of_rank-rev_onto k (sort_reversed [] rows) []
    ∙ ap (λ z. rev_onto z []) (of_rank-sort_reversed k [] rows)
    ∙ rev_onto_twice (of_rank k rows) [] []
    ∙ append_nil (of_rank k rows)

-- The usage rows stand in ascending rank, critical first, and the rows of one rank are those of the
-- policies' loop, in its order: the sort neither loses, repeats nor reorders a row within its rank.
pub compute_usage_sorted :
    (policies : List PolicyInput) (breaches : List Breach) (now k : ℕ)
    → Ascending (compute_usage policies breaches now)
      × (of_rank k (compute_usage policies breaches now)
          ≡ of_rank k (budget_rows policies breaches now []))
unfolding compute_usage
compute_usage_sorted policies breaches now k = (
  sort-Ascending (budget_rows policies breaches now []),
  of_rank-sort_by_severity k (budget_rows policies breaches now []),
)
