-- ===== src/Analysis/Tests.antt =====
-- A scan with a secret and a flaw of two spellings.
use flyto_warroom.Prelude.{◌≡◌, refl, String, List, [], ◌∷◌, All, str_eq, trim_space}
use Prim.Native.String.{◌++◌ as ◌++ₛ◌}
use flyto_warroom.Platform.{Scan, Finding}
use flyto_warroom.Platform.Scans.{new_scan}
use flyto_warroom.Platform.Tables.{count}
use flyto_warroom.Analysis.{analyze}
use flyto_warroom.Analysis.Titles.{path_title, category_title, spaced, capital}
use flyto_warroom.Analysis.Coverage.{finding_covered}
use flyto_warroom.Analysis.Paths.{analyze-IsHypothesis, IsHypothesis}

abbrev finding : (id category severity : String) → Finding
finding id category severity = record {
  id = id;
  scan_id = "scan_1";
  project_id = "org_1";
  repo_id = "repo_1";
  category = category;
  severity = severity;
  rule_id = "r";
  title = "t";
  file_path = "a.go";
  line_no = 1;
  detail = "";
  fingerprint = id;
  created_at = 1;
}

abbrev found : List Finding
found =
    finding "f_1" "Secret" "low"
    ∷ finding "f_2" "sql_injection" "high"
    ∷ finding "f_3" "sql injection" "critical"
    ∷ []

abbrev joined : List String → String
joined [] = ""
joined (part ∷ parts) = part ++ₛ joined parts

abbrev scan : Scan
unfolding new_scan
scan = new_scan "scan_1" "org_1" "repo_1" "manual" 1

-- Two categories, one title: the second path overwrites the first where `CompleteAnalysis` stores them.
same_title : path_title "sql_injection" ≡ path_title "sql injection"
unfolding path_title category_title spaced capital trim_space
same_title = refl

finding_covered_example :
    (count (λ e. str_eq e.finding_id "f_2") (analyze joined scan found).evidence
      ≡ count (λ f. str_eq f.id "f_2") found)
    × (count (λ m. str_eq m.finding_id "f_2") (analyze joined scan found).remediations
        ≡ count (λ f. str_eq f.id "f_2") found)
finding_covered_example = finding_covered joined scan found "f_2"

analyze-IsHypothesis_example : All (IsHypothesis found) (analyze joined scan found).attack_paths
analyze-IsHypothesis_example = analyze-IsHypothesis joined scan found
