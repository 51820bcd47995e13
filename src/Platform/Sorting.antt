-- ===== src/Platform/Sorting.antt =====
-- What `ORDER BY` and `LIMIT` do: the rows are kept, and the first are the lowest.
use flyto_warroom.Prelude.{
  ℕ, zero, suc, ◌≤◌, ◌≡◌, ◌∙◌, refl, sym, Bool, List, [], ◌∷◌, ◌++◌, length, leb, arith, All,
  select, if_elim, if◌then◌else◌,
}
use mathlib.Core.Path.{subst, ap}
use mathlib.Core.List.{Perm}
use mathlib.Core.List.Perm
use flyto_warroom.Platform.Tables.{insert_by, sort_by, take, count}

module _ {ℓ} {A : Type ℓ} (le : A → A → Bool) (p : A → Bool) where
  count-insert : (x : A) (xs : List A) → count p (insert_by le x xs) ≡ count p (x ∷ xs)
  unfolding insert_by select
  count-insert x [] = refl
  count-insert x (y ∷ ys) = ground (arith, count-insert x ys)

  pub count-sort : (xs : List A) → count p (sort_by le xs) ≡ count p xs
  unfolding sort_by select
  count-sort [] = refl
  count-sort (x ∷ xs) = count-insert x (sort_by le xs) ∙ ground (arith, count-sort xs)

module _ {ℓ κ} {A : Type ℓ} (le : A → A → Bool) (P : A → Type κ) where
  All-insert : (x : A) (xs : List A) → P x → All P xs → All P (insert_by le x xs)
  unfolding insert_by
  All-insert x [] px all = (px, tt)
  All-insert x (y ∷ ys) px (py, all) =
      let rest = All-insert x ys px all in
      if_elim (All P) (le x y) (λ h. (px, (py, all))) (λ h. (py, rest))

  pub All-sort : (xs : List A) → All P xs → All P (sort_by le xs)
  unfolding sort_by
  All-sort [] all = tt
  All-sort (x ∷ xs) (px, all) = All-insert x (sort_by le xs) px (All-sort xs all)

-- The `n` lowest of `all` by their key, ascending: the others are no lower.
module _ {ℓ} {A : Type ℓ} (key : A → ℕ) where
  abbrev IsAscending : List A → Type 0
  IsAscending [] = Unit {0}
  IsAscending (x ∷ xs) = All (λ y. key x ≤ key y) xs × IsAscending xs

  abbrev pub IsLowest : (n : ℕ) → (all low : List A) → Type ℓ
  IsLowest n all low =
      (rest : List A) × Perm (low ++ rest) all
      × IsAscending low
      × All (λ x. All (λ y. key x ≤ key y) rest) low
      × (length low ≡ (if leb n (length all) then n else length all))

  abbrev by_key : A → A → Bool
  by_key x y = leb (key x) (key y)

  weaken :
      (x y : A) (zs : List A)
      → key x ≤ key y
      → All (λ z. key y ≤ key z) zs
      → All (λ z. key x ≤ key z) zs
  weaken x y [] le all = tt
  weaken x y (z ∷ zs) le (h, all) = (omega (arith, le, h), weaken x y zs le all)

  insert-IsAscending : (x : A) (xs : List A) → IsAscending xs → IsAscending (insert_by by_key x xs)
  unfolding insert_by
  insert-IsAscending x [] asc = (tt, tt)
  insert-IsAscending x (y ∷ ys) (all, asc) =
      let rest = insert-IsAscending x ys asc in
      if_elim IsAscending (by_key x y)
        (λ h.
          let le : key x ≤ key y = ground (arith, h) in ((le, weaken x y ys le all), (all, asc)))
        (λ h.
          let le : key y ≤ key x = ground (arith, h) in
          (All-insert by_key (λ z. key y ≤ key z) x ys le all, rest))

  sort-IsAscending : (xs : List A) → IsAscending (sort_by by_key xs)
  unfolding sort_by
  sort-IsAscending [] = tt
  sort-IsAscending (x ∷ xs) = insert-IsAscending x (sort_by by_key xs) (sort-IsAscending xs)

  insert-Perm : (x : A) (xs : List A) → Perm (insert_by by_key x xs) (x ∷ xs)
  unfolding insert_by
  insert-Perm x [] = Perm.rfl
  insert-Perm x (y ∷ ys) =
      let rest = insert-Perm x ys in
      if_elim (λ zs. Perm zs (x ∷ y ∷ ys)) (by_key x y) (λ h. Perm.rfl)
        (λ h. Perm.trans (Perm.cons' refl rest) (Perm.swap x y ys))

  sort-Perm : (xs : List A) → Perm (sort_by by_key xs) xs
  unfolding sort_by
  sort-Perm [] = Perm.rfl
  sort-Perm (x ∷ xs) =
      Perm.trans (insert-Perm x (sort_by by_key xs)) (Perm.cons' refl (sort-Perm xs))

  length-insert : (x : A) (xs : List A) → length (insert_by by_key x xs) ≡ suc (length xs)
  unfolding insert_by
  length-insert x [] = refl
  length-insert x (y ∷ ys) = ground (arith, length-insert x ys)

  length-sort : (xs : List A) → length (sort_by by_key xs) ≡ length xs
  unfolding sort_by
  length-sort [] = refl
  length-sort (x ∷ xs) = omega (arith, length-insert x (sort_by by_key xs), length-sort xs)

  beyond : ℕ → List A → List A
  beyond zero xs = xs
  beyond (suc n) [] = []
  beyond (suc n) (x ∷ xs) = beyond n xs

  take-beyond : (n : ℕ) (xs : List A) → take n xs ++ beyond n xs ≡ xs
  unfolding take beyond
  take-beyond zero xs = refl
  take-beyond (suc n) [] = refl
  take-beyond (suc n) (x ∷ xs) = ap (λ ys. x ∷ ys) (take-beyond n xs)

  module _ {κ} (P : A → Type κ) where
    All-take : (n : ℕ) (xs : List A) → All P xs → All P (take n xs)
    unfolding take
    All-take zero xs all = tt
    All-take (suc n) [] all = tt
    All-take (suc n) (x ∷ xs) (px, all) = (px, All-take n xs all)

    All-beyond : (n : ℕ) (xs : List A) → All P xs → All P (beyond n xs)
    unfolding beyond
    All-beyond zero xs all = all
    All-beyond (suc n) [] all = tt
    All-beyond (suc n) (x ∷ xs) (px, all) = All-beyond n xs all

  take-IsAscending : (n : ℕ) (xs : List A) → IsAscending xs → IsAscending (take n xs)
  unfolding take
  take-IsAscending zero xs asc = tt
  take-IsAscending (suc n) [] asc = tt
  take-IsAscending (suc n) (x ∷ xs) (all, asc) =
      (All-take (λ y. key x ≤ key y) n xs all, take-IsAscending n xs asc)

  take_below :
      (n : ℕ) (xs : List A)
      → IsAscending xs
      → All (λ x. All (λ y. key x ≤ key y) (beyond n xs)) (take n xs)
  unfolding take beyond
  take_below zero xs asc = tt
  take_below (suc n) [] asc = tt
  take_below (suc n) (x ∷ xs) (all, asc) =
      (All-beyond (λ y. key x ≤ key y) n xs all, take_below n xs asc)

  length-take :
      (n : ℕ) (xs : List A) → length (take n xs) ≡ (if leb n (length xs) then n else length xs)
  unfolding take
  length-take zero xs = ground arith
  length-take (suc n) [] = ground arith
  length-take (suc n) (x ∷ xs) = ground (arith, length-take n xs)

  -- `ORDER BY key LIMIT n`
  pub take-sort_by-IsLowest : (n : ℕ) (xs : List A) → IsLowest n xs (take n (sort_by by_key xs))
  take-sort_by-IsLowest n xs =
      let sorted = sort_by by_key xs in
      let asc = sort-IsAscending xs in
      (
        beyond n sorted,
        subst (λ ys. Perm ys xs) (sym (take-beyond n sorted)) (sort-Perm xs),
        take-IsAscending n sorted asc,
        take_below n sorted asc,
        ground (arith, length-take n sorted, length-sort xs),
      )
