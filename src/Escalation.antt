-- ===== src/Escalation.antt =====
-- internal/vulnescalate/reescalate.go: the re-escalation rule. Scores are counted in units of
-- 0.00001, the precision in which EPSS scores are published; the rule only compares and prints them.
pub mod Sweep
mod Tests
use flyto_warroom.Prelude.{
  ℕ, ◌*◌, String, Bool, true, false, ◌&&◌, ◌||◌, Option, none, some, ltb, leb, str_eq, to_lower,
  trim_space, if◌then◌else◌,
}
use Prim.Native.String.{◌++◌}

-- The four strings that `normalizeSeverity` returns.
pub data Severity : Type 0 where
  critical high medium low : Severity

pub data Trigger : Type 0 where
  no_trigger kev_entry epss_climb : Trigger

pub record ExploitFacts : Type 0 where
  pub cve_id : String
  pub in_kev : Bool
  pub kev_date_added : String
  pub known_ransomware : String
  pub epss : ℕ
  pub epss_at_first_seen : ℕ

pub record Decision : Type 0 where
  pub reescalate : Bool
  pub new_severity : Severity
  pub reason : String
  pub trigger : Trigger

abbrev pub epss_high_threshold : ℕ
epss_high_threshold = 50_000

abbrev pub kev_entry_target : Severity
kev_entry_target = critical

normalize_word : String → Severity
normalize_word s =
    if str_eq s "critical"
    then critical
    else if str_eq s "high"
    then high
    else if str_eq s "medium" || str_eq s "moderate"
    then medium
    else low

pub normalize_severity : String → Severity
unfolding normalize_word
normalize_severity s = normalize_word (to_lower (trim_space s))

-- The string of a severity.
pub severity_name : Severity → String
severity_name critical = "critical"
severity_name high = "high"
severity_name medium = "medium"
severity_name low = "low"

abbrev pub severity_rank : Severity → ℕ
severity_rank critical = 0
severity_rank high = 1
severity_rank medium = 2
severity_rank low = 3

pub bump_one : Severity → Severity
bump_one high = critical
bump_one medium = high
bump_one low = medium
bump_one critical = critical

cve_label : String → String
cve_label cve = let c = trim_space cve in if str_eq c "" then "CVE" else c

-- The `time` and `fmt` packages: the two layouts that are parsed, as instants, and the `%.2f` format.
pub record Packages : Type 0 where
  pub parse_date : String → Option ℕ
  pub parse_rfc3339 : String → Option ℕ
  pub two_decimals : ℕ → String

module _ (pkg : Packages) where
  parse_kev_text : String → Option ℕ
  parse_kev_text s =
      if str_eq s ""
      then none
      else elim (pkg.parse_date s) [ some t ↦ some t | none ↦ pkg.parse_rfc3339 s ]

  pub parse_kev_date : String → Option ℕ
  unfolding parse_kev_text
  parse_kev_date s = parse_kev_text (trim_space s)

  -- The zero time is `none`.
  entered_after : Option ℕ → Option ℕ → Bool
  entered_after (some kev_date) (some first_seen) = ltb first_seen kev_date
  entered_after (some kev_date) none = false
  entered_after none first_seen = false

  unfoldable pub kev_fires : Severity → Option ℕ → ExploitFacts → Bool
  unfolding entered_after
  kev_fires cur first_seen facts =
      facts.in_kev
      && entered_after (parse_kev_date facts.kev_date_added) first_seen
      && ltb (severity_rank kev_entry_target) (severity_rank cur)

  unfoldable pub epss_crossed : ExploitFacts → Bool
  epss_crossed facts =
      leb epss_high_threshold facts.epss && ltb facts.epss_at_first_seen epss_high_threshold

  kev_reason : ExploitFacts → String
  kev_reason facts =
      let reason =
        "exploitability climbing: "
        ++ cve_label facts.cve_id
        ++ " entered KEV "
        ++ facts.kev_date_added in
      if str_eq (to_lower (trim_space facts.known_ransomware)) "known"
      then reason ++ " (known ransomware campaign use)"
      else reason

  epss_reason : ExploitFacts → String
  epss_reason facts =
      "exploitability climbing: "
      ++ cve_label facts.cve_id
      ++ " EPSS "
      ++ pkg.two_decimals facts.epss_at_first_seen
      ++ "→"
      ++ pkg.two_decimals facts.epss
      ++ " (crossed "
      ++ pkg.two_decimals epss_high_threshold
      ++ ")"

  -- The rule on a normalised severity.
  pub evaluate_severity : Severity → Option ℕ → ExploitFacts → Decision
  evaluate_severity cur first_seen facts =
      if kev_fires cur first_seen facts
      then record {
        reescalate = true;
        new_severity = kev_entry_target;
        reason = kev_reason facts;
        trigger = kev_entry;
      }
      else if epss_crossed facts && ltb (severity_rank (bump_one cur)) (severity_rank cur)
      then record {
        reescalate = true;
        new_severity = bump_one cur;
        reason = epss_reason facts;
        trigger = epss_climb;
      }
      else record { reescalate = false; new_severity = cur; reason = ""; trigger = no_trigger }

  pub evaluate : String → Option ℕ → ExploitFacts → Decision
  evaluate current first_seen facts =
      evaluate_severity (normalize_severity current) first_seen facts
