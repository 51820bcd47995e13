-- ===== src/Platform/Safety/Moves.antt =====
-- The three ways in which the table of scans changes: a new row, deleted rows, an update of the rows of an
-- identifier.
use flyto_warroom.Prelude.{
  ℕ, ◌≤◌, ◌≡◌, ◌≢◌, sym, ◌∙◌, String, Bool, true, false, List, [], ◌∷◌, ◌++◌, arith, All, any,
  select, str_eq, eq_iff, if_elim, Bool-cases, inl, inr,
}
use mathlib.Core.Path.{subst}
use flyto_warroom.Platform.{Scan}
use flyto_warroom.Platform.Tables.{
  update, count, All-update, All-select, All-append, count-append, count-update-le, count-select-le,
  count-none,
}
use flyto_warroom.Platform.Scans.{active_scan_of, is_active}
use flyto_warroom.Platform.Safety.{IsUnique, Fits, IsSafe}

All-mapped {ℓ κ} :
    {A : Type 0} (P : A → Type ℓ) (Q : A → Type κ) (xs : List A)
    → ((x : A) → P x → Q x)
    → All P xs
    → All Q xs
All-mapped P Q [] f all = tt
All-mapped P Q (x ∷ xs) f (p, all) = (f x p, All-mapped P Q xs f all)

All-update_both {ℓ κ μ} :
    {A : Type 0} (P : A → Type ℓ) (C : A → Type κ) (Q : A → Type μ) (p : A → Bool) (f : A → A)
    (xs : List A)
    → ((x : A) → p x ≡ true → C x → P x → Q (f x))
    → ((x : A) → p x ≡ false → P x → Q x)
    → All C xs
    → All P xs
    → All Q (update p f xs)
unfolding update
All-update_both P C Q p f [] on off cs ps = tt
All-update_both P C Q p f (x ∷ xs) on off (cx, cs) (px, ps) =
    let rest = All-update_both P C Q p f xs on off cs ps in
    if_elim (All Q) (p x) (λ h. (on x h cx px, rest)) (λ h. (off x h px, rest))

count-singleton-le : (p : Scan → Bool) (s : Scan) → count p (s ∷ []) ≤ 1
unfolding select
count-singleton-le p s = ground arith

count-singleton_none : (p : Scan → Bool) (s : Scan) → p s ≡ false → count p (s ∷ []) ≡ 0
unfolding select
count-singleton_none p s h = ground arith

same_active :
    (repo : String) (x y : Scan)
    → y.repo_id ≡ x.repo_id
    → (is_active y.status ≡ true → is_active x.status ≡ true)
    → active_scan_of repo y ≡ true
    → active_scan_of repo x ≡ true
same_active repo x y e h q =
    let r = (eq_iff y.repo_id repo).0 (ground arith) in
    ground (arith, h (ground arith), (eq_iff x.repo_id repo).1 (sym e ∙ r))

-- Updates that keep the identifiers.
IsUnique-update :
    (p : Scan → Bool) (f : Scan → Scan) (xs : List Scan)
    → ((x : Scan) → (f x).id ≡ x.id)
    → IsUnique xs
    → IsUnique (update p f xs)
unfolding IsUnique update
IsUnique-update p f [] same u = tt
IsUnique-update p f (x ∷ xs) same (d, u) =
    let rest = IsUnique-update p f xs same u in
    let apart = All-update (λ t. t.id ≢ x.id) p f xs (λ t e h q. h (sym (same t) ∙ q)) d in
    if_elim IsUnique (p x)
      (λ e. (subst (λ i. All (λ t. t.id ≢ i) (update p f xs)) (sym (same x)) apart, rest))
      (λ e. (apart, rest))

IsUnique-select : (p : Scan → Bool) (xs : List Scan) → IsUnique xs → IsUnique (select p xs)
unfolding IsUnique select
IsUnique-select p [] u = tt
IsUnique-select p (x ∷ xs) (d, u) =
    let rest = IsUnique-select p xs u in
    if_elim IsUnique (p x) (λ e. (All-select (λ t. t.id ≢ x.id) p xs d, rest)) (λ e. rest)

absent :
    (id : String) (xs : List Scan) → any (λ t. str_eq t.id id) xs ≡ false → All (λ t. t.id ≢ id) xs
unfolding any
absent id [] h = tt
absent id (x ∷ xs) h = (ground (arith, eq_iff x.id id), absent id xs (ground arith))

IsUnique-snoc :
    (xs : List Scan) (s : Scan) → All (λ t. t.id ≢ s.id) xs → IsUnique xs → IsUnique (xs ++ s ∷ [])
unfolding IsUnique
IsUnique-snoc [] s h u = (tt, tt)
IsUnique-snoc (x ∷ xs) s (h, hs) (d, u) =
    (All-append (λ t. t.id ≢ x.id) xs (s ∷ []) d ((λ q. h (sym q)), tt), IsUnique-snoc xs s hs u)

module _ (a b c : String → ℕ) where
  abbrev FitsHere : Scan → Type 0
  FitsHere r = Fits (a r.id) (b r.id) (c r.id) r

  -- A row that fits, of an identifier that is not there, and not a second active one of its repository.
  pub IsSafe-append :
      (xs : List Scan) (s : Scan)
      → any (λ t. str_eq t.id s.id) xs ≡ false
      → any (active_scan_of s.repo_id) xs ≡ false
      → FitsHere s
      → IsSafe a b c xs
      → IsSafe a b c (xs ++ s ∷ [])
  IsSafe-append xs s fresh idle fit safe = record {
    unique = IsUnique-snoc xs s (absent s.id xs fresh) safe.unique;
    one_active = λ repo.
        let both = count-append (active_scan_of repo) xs (s ∷ []) in
        elim (Bool-cases (active_scan_of repo s)) [
          | inl e ↦
              let here = (eq_iff s.repo_id repo).0 (ground arith) in
              let none_there = count-none (active_scan_of s.repo_id) xs idle in
              let none_here = subst (λ r. count (active_scan_of r) xs ≡ 0) here none_there in
              omega (arith, both, none_here, count-singleton-le (active_scan_of repo) s)
          | inr e ↦
              omega
                (arith, both, safe.one_active repo, count-singleton_none (active_scan_of repo) s e)
        ];
    fits = All-append FitsHere xs (s ∷ []) safe.fits (fit, tt);
  }

  pub IsSafe-select :
      (p : Scan → Bool) (xs : List Scan) → IsSafe a b c xs → IsSafe a b c (select p xs)
  IsSafe-select p xs safe = record {
    unique = IsUnique-select p xs safe.unique;
    one_active =
        λ repo. omega (arith, safe.one_active repo, count-select-le (active_scan_of repo) p xs);
    fits = All-select FitsHere p xs safe.fits;
  }

  -- An update of the rows of an identifier, of which something is known (`C`), that changes how often
  -- it is held; other identifiers are held as before.
  pub IsSafe-update {κ} :
      (C : Scan → Type κ) (a' b' c' : String → ℕ) (id : String) (f : Scan → Scan) (xs : List Scan)
      → ((x : Scan) → (f x).id ≡ x.id)
      → ((x : Scan) → (f x).repo_id ≡ x.repo_id)
      → ((x : Scan) → x.id ≡ id → C x → is_active (f x).status ≡ true → is_active x.status ≡ true)
      → ((x : Scan)
          → x.id ≡ id
          → C x
          → Fits (a id) (b id) (c id) x
          → Fits (a' id) (b' id) (c' id) (f x))
      → ((j : String) → j ≢ id → (a' j ≡ a j) × (b' j ≡ b j) × (c' j ≡ c j))
      → All (λ x. x.id ≡ id → C x) xs
      → IsSafe a b c xs
      → IsSafe a' b' c' (update (λ t. str_eq t.id id) f xs)
  IsSafe-update C a' b' c' id f xs same_id same_repo active fit others known safe = record {
    unique = IsUnique-update (λ t. str_eq t.id id) f xs same_id safe.unique;
    one_active = λ repo. omega (
      arith,
      safe.one_active repo,
      count-update-le (active_scan_of repo) (λ t. str_eq t.id id) f xs
          (All-mapped (λ x. x.id ≡ id → C x) _ xs
            (λ x k e.
              same_active repo x (f x) (same_repo x)
                (active x ((eq_iff x.id id).0 e) (k ((eq_iff x.id id).0 e))))
            known),
    );
    fits =
        All-update_both FitsHere (λ x. x.id ≡ id → C x) (λ x. Fits (a' x.id) (b' x.id) (c' x.id) x)
          (λ t. str_eq t.id id) f xs
          (λ x e k h.
            let q = (eq_iff x.id id).0 e in
            subst (λ i. Fits (a' i) (b' i) (c' i) (f x)) (sym (same_id x ∙ q))
              (fit x q (k q) (subst (λ i. Fits (a i) (b i) (c i) x) q h)))
          (λ x e h.
            let ne : x.id ≢ id = λ q. cc (e, (eq_iff x.id id).1 q) in
            let (ea, eb, ec) = others x.id ne in
            subst (λ n. Fits n (b' x.id) (c' x.id) x) (sym ea)
              (subst (λ n. Fits (a x.id) n (c' x.id) x) (sym eb)
                (subst (λ n. Fits (a x.id) (b x.id) n x) (sym ec) h)))
          known safe.fits;
  }

  -- An update of what the property does not mention.
  pub IsSafe-touch :
      (p : Scan → Bool) (f : Scan → Scan) (xs : List Scan)
      → ((x : Scan) → (f x).id ≡ x.id)
      → ((x : Scan) → (f x).repo_id ≡ x.repo_id)
      → ((x : Scan) → (f x).status ≡ x.status)
      → ((x : Scan) → (f x).analysis_status ≡ x.analysis_status)
      → ((x : Scan) → (f x).report_status ≡ x.report_status)
      → IsSafe a b c xs
      → IsSafe a b c (update p f xs)
  IsSafe-touch p f xs id repo st an re safe = record {
    unique = IsUnique-update p f xs id safe.unique;
    one_active = λ r. omega (
      arith,
      safe.one_active r,
      count-update-le (active_scan_of r) p f xs (
          All-mapped FitsHere _ xs
            (λ x h e.
              same_active r x (f x) (repo x) (λ q. subst (λ z. is_active z ≡ true) (st x) q))
            safe.fits),
    );
    fits =
        All-update FitsHere p f xs (λ x e h. touched x (f x) (id x) (st x) (an x) (re x) h)
          safe.fits;
  }
    where
      touched :
          (x y : Scan)
          → y.id ≡ x.id
          → y.status ≡ x.status
          → y.analysis_status ≡ x.analysis_status
          → y.report_status ≡ x.report_status
          → FitsHere x
          → FitsHere y
      touched x y i s n r h =
          subst (λ j. Fits (a j) (b j) (c j) y) (sym i)
            (record {
              one_scanner = h.one_scanner;
              one_analyst = h.one_analyst;
              one_reporter = h.one_reporter;
              scanner_runs = λ k. s ∙ h.scanner_runs k;
              analyst_runs = λ k. n ∙ h.analyst_runs k;
              reporter_runs = λ k. r ∙ h.reporter_runs k;
              analysed_after = λ k. s ∙ h.analysed_after (λ q. k (n ∙ q));
              reported_after = λ k. n ∙ h.reported_after (λ q. k (r ∙ q));
            })

  -- Workers that give up what they hold.
  pub IsSafe-fewer :
      (a' b' c' : String → ℕ) (xs : List Scan)
      → ((j : String) → (a' j ≤ a j) × (b' j ≤ b j) × (c' j ≤ c j))
      → IsSafe a b c xs
      → IsSafe a' b' c' xs
  IsSafe-fewer a' b' c' xs le safe = record {
    unique = safe.unique;
    one_active = safe.one_active;
    fits =
        All-mapped FitsHere (λ x. Fits (a' x.id) (b' x.id) (c' x.id) x) xs
          (λ x h.
            let (la, lb, lc) = le x.id in
            record {
              one_scanner = omega (arith, h.one_scanner);
              one_analyst = omega (arith, h.one_analyst);
              one_reporter = omega (arith, h.one_reporter);
              scanner_runs = λ k. h.scanner_runs (omega arith);
              analyst_runs = λ k. h.analyst_runs (omega arith);
              reporter_runs = λ k. h.reporter_runs (omega arith);
              analysed_after = h.analysed_after;
              reported_after = h.reported_after;
            })
          safe.fits;
  }
