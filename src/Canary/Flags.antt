-- ===== src/Canary/Flags.antt =====
-- Which scanners are flagged after a run.
use flyto_warroom.Prelude.{
  ℕ, ◌+◌, ◌≤◌, ◌≡◌, ◌↔◌, refl, ap, sym, ◌∙◌, true, false, not, Option, none, some, List, [], ◌∷◌,
  arith, str_eq, eq_iff, eq_refl, String, if◌then◌else◌,
}
use mathlib.Core.Path.{subst}
use flyto_warroom.Prelude.Dict.{lookup, lookup-insert, lookup-remove}
use flyto_warroom.Canary.{
  Result, InMemStore, handle_one, handle_results, mark_regressed, clear, is_regressed, flagged,
  cool_off, flag_first,
}

-- The deadline that a run leaves to a scanner, from the one before it: of the results that are not
-- errors and are of this scanner, the last decides.
unfoldable pub deadline_after : String → List Result → ℕ → Option ℕ → Option ℕ
deadline_after scanner [] now before = before
deadline_after scanner (r ∷ rs) now before =
    let untouched = deadline_after scanner rs now before in
    let passed = deadline_after scanner rs now none in
    let failed = deadline_after scanner rs now (some (now + cool_off)) in
    if not (str_eq r.error "")
    then untouched
    else if not (str_eq r.check.scanner_kind scanner)
    then untouched
    else if r.ok
    then passed
    else failed

handle_one_deadline :
    (scanner : String) (r : Result) (now : ℕ) (s : InMemStore)
    → lookup scanner (handle_one r now s).flags ≡ (
        if not (str_eq r.error "")
        then lookup scanner s.flags
        else if not (str_eq r.check.scanner_kind scanner)
        then lookup scanner s.flags
        else if r.ok
        then none
        else some (now + cool_off))
unfolding handle_one mark_regressed clear
handle_one_deadline scanner r now s = ground (
  arith,
  lookup-insert r.check.scanner_kind scanner (now + cool_off) s.flags,
  lookup-remove r.check.scanner_kind scanner s.flags,
)

handle_results_store :
    (r : Result) (rs : List Result) (now : ℕ) (s : InMemStore)
    → (handle_results (r ∷ rs) now s).store ≡ (handle_results rs now (handle_one r now s)).store
unfolding handle_results flag_first
handle_results_store r rs now s = ground arith

-- The deadline of each scanner after a run is set by its last result that is not an error: none after
-- a match, 24 hours from the run after a mismatch, and as before without any.
pub handle_results_deadline :
    (scanner : String) (rs : List Result) (now : ℕ) (s : InMemStore)
    → lookup scanner (handle_results rs now s).store.flags
      ≡ deadline_after scanner rs now (lookup scanner s.flags)
unfolding handle_results deadline_after
handle_results_deadline scanner [] now s = refl
handle_results_deadline scanner (r ∷ rs) now s =
    ap (λ z. lookup scanner z.flags) (handle_results_store r rs now s)
    ∙ handle_results_deadline scanner rs now (handle_one r now s)
    ∙ ap (deadline_after scanner rs now) (handle_one_deadline scanner r now s)
    ∙ ground arith

flagged_until : (d : ℕ) (t : ℕ) → (flagged (some d) t ≡ true) ↔ (t ≤ d)
unfolding flagged
flagged_until d t = ground arith

failed_first :
    (r : Result) (rs : List Result) (now : ℕ) (before : Option ℕ)
    → r.error ≡ ""
    → r.ok ≡ false
    → deadline_after r.check.scanner_kind (r ∷ rs) now before
      ≡ deadline_after r.check.scanner_kind rs now (some (now + cool_off))
unfolding deadline_after
failed_first r rs now before clean bad =
    ground (arith, eq_iff r.error "", eq_refl r.check.scanner_kind)

passed_last :
    (r : Result) (scanner : String) (now : ℕ) (before : Option ℕ)
    → r.error ≡ ""
    → r.ok ≡ true
    → r.check.scanner_kind ≡ scanner
    → deadline_after scanner (r ∷ []) now before ≡ none
unfolding deadline_after
passed_last r scanner now before clean good same =
    ground (arith, eq_iff r.error "", eq_iff r.check.scanner_kind scanner)

-- A mismatch flags its scanner exactly up to 24 hours after the run, if no later result of the run
-- decides otherwise: the later ones leave the deadline that they find.
pub mismatch_flags_a_day :
    (r : Result) (rs : List Result) (now t : ℕ) (s : InMemStore)
    → r.error ≡ ""
    → r.ok ≡ false
    → deadline_after r.check.scanner_kind rs now (some (now + cool_off)) ≡ some (now + cool_off)
    → (is_regressed r.check.scanner_kind t (handle_results (r ∷ rs) now s).store ≡ true)
      ↔ (t ≤ now + cool_off)
unfolding is_regressed
mismatch_flags_a_day r rs now t s clean bad kept =
    let k = r.check.scanner_kind in
    let d = handle_results_deadline k (r ∷ rs) now s ∙ failed_first r rs now _ clean bad ∙ kept in
    subst (λ o. (flagged o t ≡ true) ↔ (t ≤ now + cool_off)) (sym d)
      (flagged_until (now + cool_off) t)

returned :
    (bad good : Result) (now : ℕ) (s : InMemStore)
    → bad.error ≡ ""
    → bad.ok ≡ false
    → good.error ≡ ""
    → good.ok ≡ true
    → (handle_results (bad ∷ good ∷ []) now s).regressed ≡ bad.check.scanner_kind ∷ []
unfolding handle_results flag_first
returned bad good now s e1 o1 e2 o2 = ground (arith, eq_iff bad.error "", eq_iff good.error "")

-- Two checks of one scanner in a run, of which the first is a mismatch and the second a match: the
-- scanner is returned as regressed and alerted, but is not flagged afterwards.
pub later_match_clears :
    (bad good : Result) (now t : ℕ) (s : InMemStore)
    → bad.error ≡ ""
    → bad.ok ≡ false
    → good.error ≡ ""
    → good.ok ≡ true
    → good.check.scanner_kind ≡ bad.check.scanner_kind
    → ((handle_results (bad ∷ good ∷ []) now s).regressed ≡ bad.check.scanner_kind ∷ [])
      × (is_regressed bad.check.scanner_kind t (handle_results (bad ∷ good ∷ []) now s).store
          ≡ false)
unfolding is_regressed flagged
later_match_clears bad good now t s e1 o1 e2 o2 same =
    let k = bad.check.scanner_kind in
    let d =
      handle_results_deadline k (bad ∷ good ∷ []) now s
      ∙ failed_first bad (good ∷ []) now _ e1 o1
      ∙ passed_last good k now _ e2 o2 same in
    (returned bad good now s e1 o1 e2 o2, ap (λ o. flagged o t) d)
