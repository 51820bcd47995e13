-- ===== src/Analysis/Paths.antt =====
-- The findings of a path.
use flyto_warroom.Prelude.{
  ℕ, zero, suc, ◌≤◌, ◌<◌, ◌≡◌, refl, String, Bool, true, ◌&&◌, List, [], ◌∷◌, arith, All, any,
  length, ltb, leb, if_elim, str_eq,
}
use text.Mathlib.TextPositions.{eq_refl}
use flyto_warroom.Prelude.Dict.{Dict, lookup, insert}
use flyto_warroom.Platform.{Scan, Finding}
use flyto_warroom.Platform.Tables.{sort_by}
use flyto_warroom.Analysis.{
  PathItem, severity_rank, finding_le, category_of, or_none, group_by_category, select_high_risk,
  ids_of, with_path, paths_of, path_le, analyze,
}
use flyto_warroom.Platform.Sorting.{All-sort}

-- Medium or worse.
abbrev pub is_high : Finding → Bool
unfolding severity_rank
is_high f = leb (severity_rank f.severity) (severity_rank "medium")

module _ {κ} (P : Finding → Type κ) where
  All-lookup :
      (category : String) (groups : Dict (List Finding))
      → All (λ g. All P g.1) groups
      → All P (or_none (lookup category groups))
  unfolding lookup
  All-lookup category [] all = tt
  All-lookup category ((here, fs) ∷ rest) (one, all) =
      if_elim (λ o. All P (or_none o)) (str_eq here category) (λ h. one)
        (λ h. All-lookup category rest all)

  All-put :
      (category : String) (fs : List Finding) (groups : Dict (List Finding))
      → All P fs
      → All (λ g. All P g.1) groups
      → All (λ g. All P g.1) (insert category fs groups)
  unfolding insert
  All-put category fs [] new all = (new, tt)
  All-put category fs ((here, gs) ∷ rest) new (one, all) =
      if_elim (λ (d : Dict (List Finding)). All (λ g. All P g.1) d) (str_eq here category)
        (λ h. (new, all)) (λ h. (one, All-put category fs rest new all))

  All-group : (fs : List Finding) → All P fs → All (λ g. All P g.1) (group_by_category fs)
  unfolding group_by_category
  All-group [] all = tt
  All-group (f ∷ fs) (pf, all) =
      let groups = All-group fs all in
      All-put (category_of f) (f ∷ or_none (lookup (category_of f) (group_by_category fs)))
        (group_by_category fs) (pf, All-lookup (category_of f) (group_by_category fs) groups) groups

  -- The chosen findings.
  IsChosen : ℕ → List Finding → Type κ
  unfolding is_high
  IsChosen limit fs = All (λ f. (is_high f ≡ true) × P f) fs × (length fs ≤ limit)

  select_high_risk-IsChosen :
      (fs : List Finding) (limit : ℕ) → All P fs → IsChosen limit (select_high_risk fs limit)
  unfolding select_high_risk IsChosen is_high
  select_high_risk-IsChosen [] limit all = (tt, omega arith)
  select_high_risk-IsChosen (f ∷ fs) zero all = (tt, omega arith)
  select_high_risk-IsChosen (f ∷ fs) (suc limit) (pf, all) =
      let passed = select_high_risk-IsChosen fs (suc limit) all in
      let (taken, few) = select_high_risk-IsChosen fs limit all in
      if_elim (IsChosen (suc limit)) (ltb (severity_rank "medium") (severity_rank f.severity))
        (λ h. passed) (λ h. (((ground (arith, h), pf), taken), omega (arith, few)))

-- The scan has a finding of that name that is medium or worse.
abbrev pub is_known : List Finding → (id : String) → Bool
unfolding any is_high
is_known fs id = any (λ f. str_eq f.id id && is_high f) fs

known_more :
    (g : Finding) (fs : List Finding) (id : String)
    → is_known fs id ≡ true
    → is_known (g ∷ fs) id ≡ true
unfolding is_known any
known_more g fs id h = ground (arith, h)

known_each :
    (g : Finding) (all fs : List Finding)
    → All (λ f. is_high f ≡ true → is_known all f.id ≡ true) fs
    → All (λ f. is_high f ≡ true → is_known (g ∷ all) f.id ≡ true) fs
known_each g all [] h = tt
known_each g all (f ∷ fs) (one, h) = ((λ k. known_more g all f.id (one k)), known_each g all fs h)

known_self : (fs : List Finding) → All (λ f. is_high f ≡ true → is_known fs f.id ≡ true) fs
unfolding is_known any
known_self [] = tt
known_self (f ∷ fs) = ((λ k. ground (arith, k, eq_refl f.id)), known_each f fs fs (known_self fs))

-- A hypothesis of one to four findings of the scan, all of them medium or worse, as is its severity.
abbrev pub IsHypothesis : List Finding → PathItem → Type 0
unfolding is_known severity_rank
IsHypothesis fs path =
    (0 < length path.finding_ids)
    × (length path.finding_ids ≤ 4)
    × All (λ id. is_known fs id ≡ true) path.finding_ids
    × (severity_rank path.severity ≤ severity_rank "medium")

length-ids_of : (fs : List Finding) → length (ids_of fs) ≡ length fs
length-ids_of [] = refl
length-ids_of (f ∷ fs) = omega (arith, length-ids_of fs)

module _ (digest : List String → String) (scan : Scan) (all : List Finding) where
  ids_known :
      (fs : List Finding)
      → All (λ f. (is_high f ≡ true) × (is_high f ≡ true → is_known all f.id ≡ true)) fs
      → All (λ id. is_known all id ≡ true) (ids_of fs)
  ids_known [] h = tt
  ids_known (f ∷ fs) ((high, known), h) = (known high, ids_known fs h)

  with_path-IsHypothesis :
      (category : String) (fs : List Finding) (paths : List PathItem)
      → IsChosen (λ f. is_high f ≡ true → is_known all f.id ≡ true) 4 fs
      → All (IsHypothesis all) paths
      → All (IsHypothesis all) (with_path digest scan category fs paths)
  unfolding with_path IsChosen IsHypothesis is_high
  with_path-IsHypothesis category [] paths chosen h = h
  with_path-IsHypothesis category (f ∷ fs) paths (((high, known), rest), few) h =
      let same = length-ids_of fs in
      (
        (
          omega arith,
          omega (arith, few, same),
          (known high, ids_known fs rest),
          ground (arith, high),
        ),
        h,
      )

  paths_of-IsHypothesis :
      (groups : Dict (List Finding))
      → All (λ g. All (λ f. is_high f ≡ true → is_known all f.id ≡ true) g.1) groups
      → All (IsHypothesis all) (paths_of digest scan groups)
  unfolding paths_of
  paths_of-IsHypothesis [] h = tt
  paths_of-IsHypothesis ((category, group) ∷ groups) (one, h) =
      with_path-IsHypothesis category (select_high_risk group 4) (paths_of digest scan groups)
        (select_high_risk-IsChosen (λ f. is_high f ≡ true → is_known all f.id ≡ true) group 4 one)
        (paths_of-IsHypothesis groups h)

  -- Every path of the analysis names one to four findings of the scan, each medium or worse, and is itself
  -- of a severity that is medium or worse.
  pub analyze-IsHypothesis : All (IsHypothesis all) (analyze digest scan all).attack_paths
  unfolding analyze
  analyze-IsHypothesis =
      let known =
        All-sort finding_le (λ f. is_high f ≡ true → is_known all f.id ≡ true) all
          (known_self all) in
      All-sort path_le (IsHypothesis all)
        (paths_of digest scan (group_by_category (sort_by finding_le all)))
        (paths_of-IsHypothesis (group_by_category (sort_by finding_le all)) (
          All-group (λ f. is_high f ≡ true → is_known all f.id ≡ true) (sort_by finding_le all)
            known))
