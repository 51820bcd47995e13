-- ===== src/Compliance/Improvement.antt =====
-- Scans that have found less, or seen more, than others of the same organisation.
use flyto_warroom.Prelude.{
  ℕ, zero, suc, ◌+◌, ◌*◌, ◌/◌, ◌≤◌, ◌<◌, ◌≡◌, ◌↔◌, refl, String, Bool, true, false, if◌then◌else◌,
  List, [], ◌∷◌, arith,
}
use native.Mathlib.Nat.{le-div_iff_mul-le}
use flyto_warroom.Compliance.{
  Control, Status, pass, fail, not_applicable, FrameworkResult, ScanData, Check, check_cve,
  check_dependency_scan, check_secret_scan, check_hsts, check_csp, check_x_frame_options,
  check_x_content_type, check_ssl, check_auth_headers, check_port_scan, check_auto_scan,
  check_scan_coverage, check_spf, check_dmarc, check_dnssec, check_dast_injection, check_dast_ssrf,
  check_dast_misconfig, check_dast_access_control, check_dast_crypto, check_dast_auth,
  check_dast_insecure_design, check_unknown, check_of, case_pass, check_pass, coverage,
  is_vulnerable, no_probes, has_vuln_probe, dast_check_pass, dast_compliance_map, pass_count_of,
  fail_count_of, control_status, evaluate_control, evaluate_framework, is_pass, is_fail, tally,
}

-- The coverage test without its division.
pub coverage_iff :
    (scans : ScanData)
    → (coverage scans ≡ true) ↔ (
        (0 < scans.scanned_repo_count)
        × (0 < scans.repo_count)
        × (70 * scans.repo_count ≤ scans.scanned_repo_count * 100))
unfolding coverage
coverage_iff scans = (
  (λ h.
      let some_repo : 0 < scans.repo_count = ground (arith, h) in
      let enough : 70 ≤ scans.scanned_repo_count * 100 / scans.repo_count = ground (arith, h) in
      (ground (arith, h), some_repo, (le-div_iff_mul-le some_repo).0 enough)),
  (λ h.
      let enough : 70 ≤ scans.scanned_repo_count * 100 / scans.repo_count =
        (le-div_iff_mul-le h.1).1 h.2 in
      let (one, some_repo, all) = h in ground (arith, one, some_repo, enough)),
)

-- The later scans of an organisation with the same repositories and the same surfaces are as good in every
-- respect.
pub record IsImproved (old new : ScanData) : Type 0 where
  pub same_posture : new.has_external_posture ≡ old.has_external_posture
  pub same_probed : no_probes new.dast_vulnerable ≡ no_probes old.dast_vulnerable
  pub same_repos : new.repo_count ≡ old.repo_count
  pub cve_check : old.has_cve_check ≡ true → new.has_cve_check ≡ true
  pub critical : new.critical_cves ≤ old.critical_cves
  pub total : new.total_cves ≤ old.total_cves
  pub secret_scan : old.has_secret_scan ≡ true → new.has_secret_scan ≡ true
  pub secrets : new.secrets_found ≤ old.secrets_found
  pub hsts : old.has_hsts ≡ true → new.has_hsts ≡ true
  pub csp : old.has_csp ≡ true → new.has_csp ≡ true
  pub frame : old.has_x_frame_options ≡ true → new.has_x_frame_options ≡ true
  pub content_type : old.has_x_content_type ≡ true → new.has_x_content_type ≡ true
  pub spf : old.has_spf ≡ true → new.has_spf ≡ true
  pub dmarc : old.has_dmarc ≡ true → new.has_dmarc ≡ true
  pub dnssec : old.has_dnssec ≡ true → new.has_dnssec ≡ true
  pub ssl : old.has_ssl ≡ true → new.has_ssl ≡ true
  pub ports : new.dangerous_ports ≤ old.dangerous_ports
  pub auto : old.has_auto_scan ≡ true → new.has_auto_scan ≡ true
  pub scanned : old.scanned_repo_count ≤ new.scanned_repo_count
  pub probes :
      (p : String)
      → is_vulnerable new.dast_vulnerable p ≡ true
      → is_vulnerable old.dast_vulnerable p ≡ true

-- Applicable or not as before, and passed where it was.
abbrev pub no_worse : Status → Status → Bool
no_worse not_applicable not_applicable = true
no_worse fail fail = true
no_worse fail pass = true
no_worse pass pass = true
no_worse _ _ = false

verdict-no_worse :
    (e e' v v' : Bool)
    → e' ≡ e
    → (v' ≡ true → v ≡ true)
    → no_worse
        (if e then not_applicable else if v then fail else pass)
        (if e' then not_applicable else if v' then fail else pass)
      ≡ true
verdict-no_worse e e' v v' same less = ground (arith, same, less)

count-kept :
    (s s' : Status) (p f p' f' : ℕ)
    → no_worse s s' ≡ true
    → (p ≤ p') × (f' ≤ f) × (p' + f' ≡ p + f)
    → ((if is_pass s then suc p else p) ≤ (if is_pass s' then suc p' else p'))
      × ((if is_fail s' then suc f' else f') ≤ (if is_fail s then suc f else f))
      × ((if is_pass s' then suc p' else p') + (if is_fail s' then suc f' else f')
          ≡ (if is_pass s then suc p else p) + (if is_fail s then suc f else f))
count-kept s s' p f p' f' h (more, less, same) = ground (arith, h, more, less, same)

tally-kept :
    (p f p' f' : ℕ) (a b : FrameworkResult)
    → (p ≤ p') × (f' ≤ f) × (p' + f' ≡ p + f)
    → (a.pass_count ≤ b.pass_count)
      × (b.fail_count ≤ a.fail_count)
      × (b.total_count ≡ a.total_count)
    → ((tally (control_status p f) a).pass_count ≤ (tally (control_status p' f') b).pass_count)
      × ((tally (control_status p' f') b).fail_count ≤ (tally (control_status p f) a).fail_count)
      × ((tally (control_status p' f') b).total_count ≡ (tally (control_status p f) a).total_count)
unfolding control_status
tally-kept zero zero zero zero a b h k = k
tally-kept zero (suc f) zero (suc f') a b h k = ground (arith, k)
tally-kept p f p' f' a b h k = ground (arith, h, k)

module _ (old new : ScanData) (better : IsImproved old new) where
  coverage-kept : coverage old ≡ true → coverage new ≡ true
  coverage-kept h =
      let (one, some_repo, enough) = (coverage_iff old).0 h in
      (coverage_iff new).1 (
        omega (arith, one, better.scanned),
        omega (arith, some_repo, better.same_repos),
        omega (arith, enough, better.scanned, better.same_repos),
      )

  probes-kept :
      (rows : List (String × List String)) (check : String)
      → has_vuln_probe rows new.dast_vulnerable check ≡ true
      → has_vuln_probe rows old.dast_vulnerable check ≡ true
  unfolding has_vuln_probe
  probes-kept [] check h = h
  probes-kept ((probe, checks) ∷ rows) check h =
      ground (arith, probes-kept rows check, better.probes probe)

  dast-no_worse :
      (check : String) → no_worse (dast_check_pass old check) (dast_check_pass new check) ≡ true
  unfolding dast_check_pass
  dast-no_worse check =
      verdict-no_worse _ _ _ _ better.same_probed (probes-kept dast_compliance_map check)

  case-no_worse : (c : Check) → no_worse (case_pass c old) (case_pass c new) ≡ true
  unfolding case_pass
  case-no_worse check_cve = ground (arith, better.cve_check, better.critical)
  case-no_worse check_dependency_scan = ground (arith, better.cve_check, better.total)
  case-no_worse check_secret_scan = ground (arith, better.secret_scan, better.secrets)
  case-no_worse check_hsts = ground (arith, better.same_posture, better.hsts)
  case-no_worse check_csp = ground (arith, better.same_posture, better.csp)
  case-no_worse check_x_frame_options = ground (arith, better.same_posture, better.frame)
  case-no_worse check_x_content_type = ground (arith, better.same_posture, better.content_type)
  case-no_worse check_ssl = ground (arith, better.same_posture, better.ssl)
  case-no_worse check_auth_headers = ground (arith, better.same_posture, better.hsts, better.csp)
  case-no_worse check_port_scan = ground (arith, better.same_posture, better.ports)
  case-no_worse check_auto_scan = ground (arith, better.auto)
  case-no_worse check_scan_coverage = ground (arith, coverage-kept)
  case-no_worse check_spf = ground (arith, better.same_posture, better.spf)
  case-no_worse check_dmarc = ground (arith, better.same_posture, better.dmarc)
  case-no_worse check_dnssec = ground (arith, better.same_posture, better.dnssec)
  case-no_worse check_dast_injection = dast-no_worse "dast_injection"
  case-no_worse check_dast_ssrf = dast-no_worse "dast_ssrf"
  case-no_worse check_dast_misconfig = dast-no_worse "dast_misconfig"
  case-no_worse check_dast_access_control = dast-no_worse "dast_access_control"
  case-no_worse check_dast_crypto = dast-no_worse "dast_crypto"
  case-no_worse check_dast_auth = dast-no_worse "dast_auth"
  case-no_worse check_dast_insecure_design = dast-no_worse "dast_insecure_design"
  case-no_worse check_unknown = refl

  check-no_worse : (c : String) → no_worse (check_pass c old) (check_pass c new) ≡ true
  unfolding check_pass
  check-no_worse c = case-no_worse (check_of c)

  counts-kept :
      (cs : List String)
      → (pass_count_of cs old ≤ pass_count_of cs new)
        × (fail_count_of cs new ≤ fail_count_of cs old)
        × (pass_count_of cs new + fail_count_of cs new
            ≡ pass_count_of cs old + fail_count_of cs old)
  unfolding pass_count_of fail_count_of
  counts-kept [] = (omega arith, omega arith, refl)
  counts-kept (c ∷ cs) = count-kept _ _ _ _ _ _ (check-no_worse c) (counts-kept cs)

  -- Where the new scans are better than the old, a framework has as many controls as before that count, no
  -- fewer that pass and no more that fail.
  pub scores-kept :
      (controls : List Control)
      → ((evaluate_framework controls old).pass_count
          ≤ (evaluate_framework controls new).pass_count)
        × ((evaluate_framework controls new).fail_count
            ≤ (evaluate_framework controls old).fail_count)
        × ((evaluate_framework controls new).total_count
            ≡ (evaluate_framework controls old).total_count)
  unfolding evaluate_framework evaluate_control
  scores-kept [] = (omega arith, omega arith, refl)
  scores-kept (c ∷ cs) = tally-kept _ _ _ _ _ _ (counts-kept c.checks) (scores-kept cs)
