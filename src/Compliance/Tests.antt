-- ===== src/Compliance/Tests.antt =====
-- An organisation that has fixed its critical vulnerability, and its binder.
use flyto_warroom.Prelude.{◌≤◌, ◌≡◌, ◌≢◌, refl, String, true, false, [], ◌∷◌, arith, All, map, any}
use Prim.Native.String.{◌++◌ as ◌++ₛ◌}
use flyto_warroom.Prelude.Dict.{lookup}
use flyto_warroom.Compliance.{
  soc2, pci_dss, pass, fail, ScanData, check_pass, check_of, check_unknown, FrameworkResult,
  evaluate_framework, evaluate_control, case_pass, coverage, dast_check_pass, has_vuln_probe,
  is_vulnerable, pass_count_of, fail_count_of, control_status,
}
use flyto_warroom.Compliance.Tables.{framework_controls, soc2_controls, control}
use flyto_warroom.Compliance.Counts.{counts_agree, IsCounted, checks_known}
use flyto_warroom.Compliance.Improvement.{IsImproved, scores-kept}
use flyto_warroom.Compliance.Evidence.{build_binder}
use flyto_warroom.Compliance.Sealed.{envelope_recomputed, recompute, binder-IsCited, IsCited}

abbrev before : ScanData
before = record {
  has_cve_check = true;
  critical_cves = 1;
  total_cves = 3;
  has_secret_scan = true;
  secrets_found = 0;
  has_hsts = true;
  has_csp = false;
  has_x_frame_options = true;
  has_x_content_type = true;
  has_spf = true;
  has_dmarc = false;
  has_dnssec = false;
  has_ssl = true;
  dangerous_ports = 2;
  has_auto_scan = true;
  repo_count = 10;
  scanned_repo_count = 7;
  has_external_posture = true;
  dast_vulnerable = ("xss", true) ∷ [];
}

abbrev after : ScanData
after = record before { critical_cves = 0; total_cves = 0; scanned_repo_count = 9 }

after-IsImproved : IsImproved before after
after-IsImproved = record {
  same_posture = refl;
  same_probed = refl;
  same_repos = refl;
  cve_check = λ h. h;
  critical = omega arith;
  total = omega arith;
  secret_scan = λ h. h;
  secrets = omega arith;
  hsts = λ h. h;
  csp = λ h. h;
  frame = λ h. h;
  content_type = λ h. h;
  spf = λ h. h;
  dmarc = λ h. h;
  dnssec = λ h. h;
  ssl = λ h. h;
  ports = omega arith;
  auto = λ h. h;
  scanned = omega arith;
  probes = λ p h. h;
}

before_soc2 : (evaluate_framework (framework_controls soc2) before).pass_count ≡ 1
unfolding evaluate_framework framework_controls soc2_controls control evaluate_control pass_count_of
    fail_count_of control_status check_pass check_of case_pass coverage
before_soc2 = refl

after_soc2 : (evaluate_framework (framework_controls soc2) after).pass_count ≡ 3
unfolding evaluate_framework framework_controls soc2_controls control evaluate_control pass_count_of
    fail_count_of control_status check_pass check_of case_pass coverage
after_soc2 = refl

-- Only a probe for cross-site scripting has run; the check of server-side request forgery passes.
unprobed_passes : check_pass "dast_ssrf" before ≡ pass
unfolding check_pass check_of case_pass dast_check_pass has_vuln_probe is_vulnerable lookup any
unprobed_passes = refl

scores-kept_example :
    ((evaluate_framework (framework_controls pci_dss) before).pass_count
      ≤ (evaluate_framework (framework_controls pci_dss) after).pass_count)
    × ((evaluate_framework (framework_controls pci_dss) after).fail_count
        ≤ (evaluate_framework (framework_controls pci_dss) before).fail_count)
    × ((evaluate_framework (framework_controls pci_dss) after).total_count
        ≡ (evaluate_framework (framework_controls pci_dss) before).total_count)
scores-kept_example = scores-kept before after after-IsImproved (framework_controls pci_dss)

counts_agree_example : IsCounted (evaluate_framework (framework_controls soc2) before)
counts_agree_example = counts_agree (framework_controls soc2) before

checks_known_example :
    All (λ c. All (λ check. check_of check ≢ check_unknown) c.checks) (framework_controls pci_dss)
checks_known_example = checks_known pci_dss

-- A stand-in for the hash that keeps its text.
abbrev marked : String → String
marked text = text ++ₛ "#"

abbrev as_given : String → String
as_given time = time

abbrev cited : FrameworkResult
cited = record {
  pass_count = 0;
  partial_count = 0;
  fail_count = 1;
  total_count = 1;
  controls =
      record { control_id = "A.8.24"; control_name = "Use of Cryptography"; status = fail } ∷ [];
}

envelope_recomputed_example :
    (build_binder marked as_given "org_1" "Shop" soc2 cited
      (("ssl_cert", "TLS 1.3") ∷ [])
      "2026").envelope_hash
    ≡ recompute marked as_given (
        build_binder marked as_given "org_1" "Shop" soc2 cited
          (("ssl_cert", "TLS 1.3") ∷ [])
          "2026")
envelope_recomputed_example =
    envelope_recomputed marked as_given "org_1" "Shop" soc2 cited (("ssl_cert", "TLS 1.3") ∷ [])
      "2026"

binder-IsCited_example :
    All
      (IsCited marked as_given (("ssl_cert", "TLS 1.3") ∷ []))
      (build_binder marked as_given "org_1" "Shop" soc2 cited
        (("ssl_cert", "TLS 1.3") ∷ [])
        "2026").controls
    × (map
          (λ c. c.result)
          (build_binder marked as_given "org_1" "Shop" soc2 cited
            (("ssl_cert", "TLS 1.3") ∷ [])
            "2026").controls
        ≡ cited.controls)
binder-IsCited_example =
    binder-IsCited marked as_given "org_1" "Shop" soc2 cited (("ssl_cert", "TLS 1.3") ∷ []) "2026"
