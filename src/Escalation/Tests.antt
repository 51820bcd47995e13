-- ===== src/Escalation/Tests.antt =====
-- Runs of the rule, and its theorems at concrete inputs.
use flyto_warroom.Prelude.{
  ◌≤◌, ◌<◌, ◌≡◌, ◌≢◌, ◌↔◌, refl, true, false, none, some, to_lower, trim_space,
}
use flyto_warroom.Escalation.{
  critical, high, epss_climb, bump_one, ExploitFacts, Packages, parse_kev_date, kev_fires,
  epss_crossed, normalize_severity, severity_name, severity_rank, evaluate_severity, evaluate,
}
use flyto_warroom.Escalation.Sweep.{evaluate_raises, kev_idempotent, fed_back_iff}

-- Dates are read as a fixed instant, and scores are not printed.
abbrev plain : Packages
plain = record { parse_date = λ s. some 20; parse_rfc3339 = λ s. none; two_decimals = λ n. "" }

abbrev climbing : ExploitFacts
climbing = record {
  cve_id = "CVE-2026-1";
  in_kev = false;
  kev_date_added = "";
  known_ransomware = "";
  epss = 71_000;
  epss_at_first_seen = 12_000;
}

abbrev listed : ExploitFacts
listed = record climbing { in_kev = true; kev_date_added = "2026-01-02" }

evaluate_raises_holds :
    let d = evaluate plain "Moderate" (some 10) climbing in
    (severity_rank d.new_severity ≤ severity_rank (normalize_severity "Moderate"))
    × ((d.reescalate ≡ true)
        ↔ (severity_rank d.new_severity < severity_rank (normalize_severity "Moderate")))
evaluate_raises_holds = evaluate_raises plain (some 10) climbing "Moderate"

kev_idempotent_holds :
    (evaluate plain
      (severity_name (evaluate plain "low" (some 10) listed).new_severity)
      (some 10)
      listed).reescalate
    ≡ false
unfolding evaluate evaluate_severity kev_fires parse_kev_date normalize_severity to_lower trim_space
kev_idempotent_holds = kev_idempotent plain (some 10) listed "low" refl

fed_back_iff_example :
    ((evaluate plain
        (severity_name (evaluate plain "low" (some 10) climbing).new_severity)
        (some 10)
        climbing).reescalate
      ≡ true)
    ↔ (((evaluate plain "low" (some 10) climbing).trigger ≡ epss_climb)
        × ((evaluate plain "low" (some 10) climbing).new_severity ≢ critical))
fed_back_iff_example = fed_back_iff plain (some 10) climbing "low"

-- The finding is raised a second time.
raised_twice :
    (evaluate plain
      (severity_name (evaluate plain "low" (some 10) climbing).new_severity)
      (some 10)
      climbing).new_severity
    ≡ high
unfolding severity_name evaluate evaluate_severity kev_fires epss_crossed bump_one
    normalize_severity to_lower trim_space
raised_twice = refl
