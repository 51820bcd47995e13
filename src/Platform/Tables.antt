-- ===== src/Platform/Tables.antt =====
-- Statements over the rows of a table: the first and the earliest row that a condition selects,
-- updates, deletions, and what they do to a property of all rows.
use flyto_warroom.Prelude.{
  ℕ, zero, suc, ◌==◌, ◌+◌, ◌≤◌, ◌<◌, ◌≡◌, refl, Bool, true, false, not, Option, none, some, List,
  [], ◌∷◌, ◌++◌, arith, All, any, select, length, if◌then◌else◌, if_elim, leb, Bool-cases, inl, inr,
}
use mathlib.Core.Path.{subst}
use mathlib.Core.List.{Memᴰ}

module _ {ℓ} {A : Type ℓ} where
  -- `SELECT ... WHERE p`, of which one row is scanned.
  unfoldable pub first : (A → Bool) → List A → Option A
  first p [] = none
  first p (x ∷ xs) = let rest = first p xs in if p x then some x else rest

  unfoldable pub or_earlier : (A → A → Bool) → A → Option A → A
  or_earlier le x none = x
  or_earlier le x (some y) = if le x y then x else y

  -- `SELECT ... WHERE p ORDER BY le LIMIT 1`; among equals the first row.
  unfoldable pub earliest : (A → Bool) → (A → A → Bool) → List A → Option A
  unfolding or_earlier
  earliest p le [] = none
  earliest p le (x ∷ xs) =
      let rest = earliest p le xs in if p x then some (or_earlier le x rest) else rest

  -- `UPDATE ... SET f WHERE p`
  unfoldable pub update : (A → Bool) → (A → A) → List A → List A
  update p f [] = []
  update p f (x ∷ xs) = let rest = update p f xs in if p x then f x ∷ rest else x ∷ rest

  -- `DELETE ... WHERE p`
  abbrev pub delete : (A → Bool) → List A → List A
  delete p xs = select (λ x. not (p x)) xs

  pub first-some : (p : A → Bool) (xs : List A) (x : A) → first p xs ≡ some x → p x ≡ true
  unfolding first
  first-some p [] x h = ground arith
  first-some p (y ∷ ys) x h = ground (arith, first-some p ys x)

  pub first-none : (p : A → Bool) (xs : List A) → first p xs ≡ none → any p xs ≡ false
  unfolding first any
  first-none p [] h = refl
  first-none p (y ∷ ys) h = ground (arith, first-none p ys)

  or_earlier-some :
      (p : A → Bool) (le : A → A → Bool) (y x : A) (o : Option A)
      → p y ≡ true
      → ((z : A) → o ≡ some z → p z ≡ true)
      → or_earlier le y o ≡ x
      → p x ≡ true
  unfolding or_earlier
  or_earlier-some p le y x none py h e = ground arith
  or_earlier-some p le y x (some z) py h e = ground (arith, h z refl)

  pub earliest-some :
      (p : A → Bool) (le : A → A → Bool) (xs : List A) (x : A)
      → earliest p le xs ≡ some x
      → p x ≡ true
  unfolding earliest
  earliest-some p le [] x h = ground arith
  earliest-some p le (y ∷ ys) x h = elim (Bool-cases (p y)) [
    | inl e ↦
        or_earlier-some p le y x (earliest p le ys) e (λ z. earliest-some p le ys z) (ground arith)
    | inr e ↦ earliest-some p le ys x (ground arith)
  ]

  or_earlier-mem :
      (le : A → A → Bool) (y x : A) (ys : List A) (o : Option A)
      → ((z : A) → o ≡ some z → Memᴰ z ys)
      → or_earlier le y o ≡ x
      → Memᴰ x (y ∷ ys)
  unfolding or_earlier
  or_earlier-mem le y x ys none h e = subst (λ z. Memᴰ z (y ∷ ys)) e (Memᴰ.head refl)
  or_earlier-mem le y x ys (some z) h e =
      subst (λ w. Memᴰ w (y ∷ ys)) e
        (if_elim (λ w. Memᴰ w (y ∷ ys)) (le y z) (λ q. Memᴰ.head refl) (λ q. Memᴰ.tail (h z refl)))

  pub earliest-mem :
      (p : A → Bool) (le : A → A → Bool) (xs : List A) (x : A)
      → earliest p le xs ≡ some x
      → Memᴰ x xs
  unfolding earliest
  earliest-mem p le [] x h = ground arith
  earliest-mem p le (y ∷ ys) x h = elim (Bool-cases (p y)) [
    | inl e ↦
        or_earlier-mem le y x ys (earliest p le ys) (λ z. earliest-mem p le ys z) (ground arith)
    | inr e ↦ Memᴰ.tail (earliest-mem p le ys x (ground arith))
  ]

  -- How many rows a condition selects.
  abbrev pub count : (A → Bool) → List A → ℕ
  count p xs = length (select p xs)

  pub count-append : (p : A → Bool) (xs ys : List A) → count p (xs ++ ys) ≡ count p xs + count p ys
  unfolding select
  count-append p [] ys = omega arith
  count-append p (x ∷ xs) ys = ground (arith, count-append p xs ys)

  pub count-update-le :
      (p q : A → Bool) (f : A → A) (xs : List A)
      → All (λ x. q x ≡ true → p (f x) ≡ true → p x ≡ true) xs
      → count p (update q f xs) ≤ count p xs
  unfolding select update
  count-update-le p q f [] all = omega arith
  count-update-le p q f (x ∷ xs) (h, all) = ground (arith, count-update-le p q f xs all)

  pub count-update-lt :
      (p q : A → Bool) (f : A → A) (xs : List A) (x : A)
      → Memᴰ x xs
      → p x ≡ true
      → q x ≡ true
      → ((y : A) → p (f y) ≡ false)
      → count p (update q f xs) < count p xs
  unfolding select update
  count-update-lt p q f [] x m px qx gone = elim m [ ]
  count-update-lt p q f (y ∷ ys) x (Memᴰ.head e) px qx gone =
      let le = count-update-le p q f ys (All_gone ys) in
      let py = subst (λ z. p z ≡ true) e px in
      let qy = subst (λ z. q z ≡ true) e qx in ground (arith, le, gone y)
    where
      All_gone : (zs : List A) → All (λ z. q z ≡ true → p (f z) ≡ true → p z ≡ true) zs
      All_gone [] = tt
      All_gone (z ∷ zs) = (λ a b. absurd (cc (b, gone z)), All_gone zs)
  count-update-lt p q f (y ∷ ys) x (Memᴰ.tail m) px qx gone =
      ground (arith, count-update-lt p q f ys x m px qx gone, gone y)

  pub count-select-le : (p q : A → Bool) (xs : List A) → count p (select q xs) ≤ count p xs
  unfolding select
  count-select-le p q [] = omega arith
  count-select-le p q (x ∷ xs) = ground (arith, count-select-le p q xs)

  pub count-none : (p : A → Bool) (xs : List A) → any p xs ≡ false → count p xs ≡ 0
  unfolding select any
  count-none p [] h = refl
  count-none p (x ∷ xs) h = ground (arith, count-none p xs)

  pub earliest-none :
      (p : A → Bool) (le : A → A → Bool) (xs : List A) → earliest p le xs ≡ none → any p xs ≡ false
  unfolding earliest any
  earliest-none p le [] h = refl
  earliest-none p le (y ∷ ys) h = ground (arith, earliest-none p le ys)

  pub All-update {κ} :
      (P : A → Type κ) (p : A → Bool) (f : A → A) (xs : List A)
      → ((x : A) → p x ≡ true → P x → P (f x))
      → All P xs
      → All P (update p f xs)
  unfolding update
  All-update P p f [] keep all = tt
  All-update P p f (x ∷ xs) keep (px, all) =
      let rest = All-update P p f xs keep all in
      if_elim (All P) (p x) (λ h. (keep x h px, rest)) (λ h. (px, rest))

  pub All-select {κ} :
      (P : A → Type κ) (p : A → Bool) (xs : List A) → All P xs → All P (select p xs)
  unfolding select
  All-select P p [] all = tt
  All-select P p (x ∷ xs) (px, all) =
      let rest = All-select P p xs all in if_elim (All P) (p x) (λ h. (px, rest)) (λ h. rest)

  pub All-append {κ} : (P : A → Type κ) (xs ys : List A) → All P xs → All P ys → All P (xs ++ ys)
  All-append P [] ys a b = b
  All-append P (x ∷ xs) ys (px, a) b = (px, All-append P xs ys a b)

  unfoldable pub insert_by : (A → A → Bool) → A → List A → List A
  insert_by le x [] = x ∷ []
  insert_by le x (y ∷ ys) = let rest = insert_by le x ys in if le x y then x ∷ y ∷ ys else y ∷ rest

  -- `ORDER BY`; equals stay in the order of the table.
  unfoldable pub sort_by : (A → A → Bool) → List A → List A
  unfolding insert_by
  sort_by le [] = []
  sort_by le (x ∷ xs) = insert_by le x (sort_by le xs)

  -- `LIMIT n`
  unfoldable pub take : ℕ → List A → List A
  take zero xs = []
  take (suc n) [] = []
  take (suc n) (x ∷ xs) = x ∷ take n xs

  pub length-take-le : (n : ℕ) (xs : List A) → length (take n xs) ≤ n
  unfolding take
  length-take-le zero xs = omega arith
  length-take-le (suc n) [] = omega arith
  length-take-le (suc n) (x ∷ xs) = omega (arith, length-take-le n xs)

-- `ORDER BY t`, ascending: a missing instant is last.
unfoldable pub no_later : Option ℕ → Option ℕ → Bool
no_later none none = true
no_later none (some u) = false
no_later (some t) none = true
no_later (some t) (some u) = leb t u

-- `ORDER BY t NULLS FIRST, u`
unfoldable pub nulls_first : Option ℕ → ℕ → Option ℕ → ℕ → Bool
nulls_first none u none u' = leb u u'
nulls_first none u (some t') u' = true
nulls_first (some t) u none u' = false
nulls_first (some t) u (some t') u' = if t == t' then leb u u' else leb t t'
