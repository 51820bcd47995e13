-- ===== src/Analysis/Coverage.antt =====
-- Every finding has its evidence and its remediation, and every path has its findings.
use flyto_warroom.Prelude.{◌≡◌, ◌∙◌, refl, String, List, [], ◌∷◌, map, arith, select, str_eq}
use flyto_warroom.Platform.{Scan, Finding}
use flyto_warroom.Platform.Tables.{sort_by, count}
use flyto_warroom.Platform.Sorting.{count-sort}
use flyto_warroom.Analysis.{finding_le, evidence_of, remediation_of, analyze}

module _ (digest : List String → String) (scan : Scan) (id : String) where
  count-evidence :
      (fs : List Finding)
      → count (λ e. str_eq e.finding_id id) (map (evidence_of digest scan) fs)
        ≡ count (λ f. str_eq f.id id) fs
  unfolding select
  count-evidence [] = refl
  count-evidence (f ∷ fs) = ground (arith, count-evidence fs)

  count-remediation :
      (fs : List Finding)
      → count (λ m. str_eq m.finding_id id) (map (remediation_of digest scan) fs)
        ≡ count (λ f. str_eq f.id id) fs
  unfolding select remediation_of
  count-remediation [] = refl
  count-remediation (f ∷ fs) = ground (arith, count-remediation fs)

-- A finding has as many records of evidence, and as many remediations, as the scan has findings of its name.
pub finding_covered :
    (digest : List String → String) (scan : Scan) (fs : List Finding) (id : String)
    → (count (λ e. str_eq e.finding_id id) (analyze digest scan fs).evidence
        ≡ count (λ f. str_eq f.id id) fs)
      × (count (λ m. str_eq m.finding_id id) (analyze digest scan fs).remediations
          ≡ count (λ f. str_eq f.id id) fs)
unfolding analyze
finding_covered digest scan fs id =
    let same = count-sort finding_le (λ f. str_eq f.id id) fs in
    (
      count-evidence digest scan id (sort_by finding_le fs) ∙ same,
      count-remediation digest scan id (sort_by finding_le fs) ∙ same,
    )
