-- ===== src/Compliance.antt =====
-- compliance/compliance.go: the checks of the controls of each framework against what the scans have found, and
-- the scores. The texts of the details are left out, as is the order of a map's keys.
pub mod Tables
pub mod Counts
pub mod Evidence
pub mod Sealed
pub mod Improvement
mod Tests
use flyto_warroom.Prelude.{
  ℕ, zero, suc, ◌+◌, ◌*◌, ◌/◌, String, Bool, true, false, not, ◌&&◌, ◌||◌, Option, none, some, List,
  [], ◌∷◌, any, select, length, leb, ltb, str_eq, if◌then◌else◌,
}
use flyto_warroom.Prelude.Dict.{Dict, lookup}

pub data Framework : Type 0 where
  soc2 iso27001 pci_dss owasp_top10 gdpr hipaa nist_csf : Framework

pub record Control : Type 0 where
  pub id : String
  pub name : String
  pub description : String
  pub checks : List String

pub data Status : Type 0 where
  pass fail partial not_applicable : Status

pub record ControlResult : Type 0 where
  pub control_id : String
  pub control_name : String
  pub status : Status

-- The score is `pass_count` of `total_count`.
pub record FrameworkResult : Type 0 where
  pub pass_count : ℕ
  pub partial_count : ℕ
  pub fail_count : ℕ
  pub total_count : ℕ
  pub controls : List ControlResult

pub record ScanData : Type 0 where
  pub has_cve_check : Bool
  pub critical_cves : ℕ
  pub total_cves : ℕ
  pub has_secret_scan : Bool
  pub secrets_found : ℕ
  pub has_hsts : Bool
  pub has_csp : Bool
  pub has_x_frame_options : Bool
  pub has_x_content_type : Bool
  pub has_spf : Bool
  pub has_dmarc : Bool
  pub has_dnssec : Bool
  pub has_ssl : Bool
  pub dangerous_ports : ℕ
  pub has_auto_scan : Bool
  pub repo_count : ℕ
  pub scanned_repo_count : ℕ
  pub has_external_posture : Bool
  pub dast_vulnerable : Dict Bool

-- The cases of the switch of `checkPass`.
pub data Check : Type 0 where
  check_cve check_dependency_scan check_secret_scan check_hsts check_csp check_x_frame_options
        check_x_content_type check_ssl check_auth_headers check_port_scan check_auto_scan
        check_scan_coverage check_spf check_dmarc check_dnssec check_dast_injection check_dast_ssrf
        check_dast_misconfig check_dast_access_control check_dast_crypto check_dast_auth
        check_dast_insecure_design check_unknown :
      Check

unfoldable pub check_of : String → Check
check_of check =
    if str_eq check "cve_check"
    then check_cve
    else if str_eq check "dependency_scan"
    then check_dependency_scan
    else if str_eq check "secret_scan"
    then check_secret_scan
    else if str_eq check "hsts"
    then check_hsts
    else if str_eq check "csp"
    then check_csp
    else if str_eq check "x_frame_options"
    then check_x_frame_options
    else if str_eq check "x_content_type"
    then check_x_content_type
    else if str_eq check "ssl"
    then check_ssl
    else if str_eq check "auth_headers"
    then check_auth_headers
    else if str_eq check "port_scan"
    then check_port_scan
    else if str_eq check "auto_scan"
    then check_auto_scan
    else if str_eq check "scan_coverage"
    then check_scan_coverage
    else if str_eq check "spf"
    then check_spf
    else if str_eq check "dmarc"
    then check_dmarc
    else if str_eq check "dnssec"
    then check_dnssec
    else if str_eq check "dast_injection"
    then check_dast_injection
    else if str_eq check "dast_ssrf"
    then check_dast_ssrf
    else if str_eq check "dast_misconfig"
    then check_dast_misconfig
    else if str_eq check "dast_access_control"
    then check_dast_access_control
    else if str_eq check "dast_crypto"
    then check_dast_crypto
    else if str_eq check "dast_auth"
    then check_dast_auth
    else if str_eq check "dast_insecure_design"
    then check_dast_insecure_design
    else check_unknown

abbrev pub dast_compliance_map : List (String × List String)
dast_compliance_map =
    ("sql_injection", "dast_injection" ∷ [])
    ∷ ("xss", "dast_injection" ∷ [])
    ∷ ("crlf", "dast_injection" ∷ [])
    ∷ ("command_injection", "dast_injection" ∷ [])
    ∷ ("nosql_injection", "dast_injection" ∷ [])
    ∷ ("ssrf", "dast_ssrf" ∷ [])
    ∷ ("xxe", "dast_misconfig" ∷ [])
    ∷ ("cors", "dast_misconfig" ∷ [])
    ∷ ("host_injection", "dast_misconfig" ∷ [])
    ∷ ("cookie_security", "dast_misconfig" ∷ [])
    ∷ ("graphql_introspection", "dast_misconfig" ∷ [])
    ∷ ("cache_poisoning", "dast_misconfig" ∷ [])
    ∷ ("clickjacking", "dast_misconfig" ∷ [])
    ∷ ("content_type_confusion", "dast_misconfig" ∷ [])
    ∷ ("idor", "dast_access_control" ∷ [])
    ∷ ("open_redirect", "dast_access_control" ∷ [])
    ∷ ("directory_traversal", "dast_access_control" ∷ [])
    ∷ ("subdomain_takeover", "dast_access_control" ∷ [])
    ∷ ("jwt", "dast_crypto" ∷ "dast_auth" ∷ [])
    ∷ ("websocket_auth", "dast_auth" ∷ [])
    ∷ ("request_smuggling", "dast_injection" ∷ "dast_misconfig" ∷ [])
    ∷ ("prototype_pollution", "dast_injection" ∷ [])
    ∷ ("rate_limiting", "dast_insecure_design" ∷ [])
    ∷ []

abbrev pub is_true : Option Bool → Bool
is_true (some true) = true
is_true _ = false

-- `scans.DastVulnerable[probe]`
unfoldable pub is_vulnerable : Dict Bool → String → Bool
unfolding lookup
is_vulnerable probes probe = is_true (lookup probe probes)

abbrev pub no_probes : Dict Bool → Bool
no_probes [] = true
no_probes _ = false

-- Some probe that the check is mapped to has found the target vulnerable.
unfoldable pub has_vuln_probe : List (String × List String) → Dict Bool → (check : String) → Bool
unfolding is_vulnerable any
has_vuln_probe [] probes check = false
has_vuln_probe ((probe, checks) ∷ rest) probes check =
    any (λ c. str_eq c check) checks && is_vulnerable probes probe
    || has_vuln_probe rest probes check

abbrev pub pass_if : Bool → Status
pass_if true = pass
pass_if false = fail

unfoldable pub dast_check_pass : ScanData → (check : String) → Status
unfolding has_vuln_probe
dast_check_pass scans check =
    if no_probes scans.dast_vulnerable
    then not_applicable
    else if has_vuln_probe dast_compliance_map scans.dast_vulnerable check
    then fail
    else pass

-- A check of the outside is not applicable without one.
abbrev pub outside : ScanData → Bool → Status
outside scans b = if not scans.has_external_posture then not_applicable else pass_if b

unfoldable pub coverage : ScanData → Bool
coverage scans =
    ltb 0 scans.scanned_repo_count
    && (ltb 0 scans.repo_count && leb 70 (scans.scanned_repo_count * 100 / scans.repo_count))

unfoldable pub case_pass : Check → ScanData → Status
unfolding dast_check_pass coverage
case_pass check_cve scans =
    if not scans.has_cve_check then fail else pass_if (not (ltb 0 scans.critical_cves))
case_pass check_dependency_scan scans =
    if not scans.has_cve_check then fail else pass_if (not (ltb 0 scans.total_cves))
case_pass check_secret_scan scans =
    if not scans.has_secret_scan then fail else pass_if (not (ltb 0 scans.secrets_found))
case_pass check_hsts scans = outside scans scans.has_hsts
case_pass check_csp scans = outside scans scans.has_csp
case_pass check_x_frame_options scans = outside scans scans.has_x_frame_options
case_pass check_x_content_type scans = outside scans scans.has_x_content_type
case_pass check_ssl scans = outside scans scans.has_ssl
case_pass check_auth_headers scans = outside scans (scans.has_hsts && scans.has_csp)
case_pass check_port_scan scans = outside scans (not (ltb 0 scans.dangerous_ports))
case_pass check_auto_scan scans = pass_if scans.has_auto_scan
case_pass check_scan_coverage scans = pass_if (coverage scans)
case_pass check_spf scans = outside scans scans.has_spf
case_pass check_dmarc scans = outside scans scans.has_dmarc
case_pass check_dnssec scans = outside scans scans.has_dnssec
case_pass check_dast_injection scans = dast_check_pass scans "dast_injection"
case_pass check_dast_ssrf scans = dast_check_pass scans "dast_ssrf"
case_pass check_dast_misconfig scans = dast_check_pass scans "dast_misconfig"
case_pass check_dast_access_control scans = dast_check_pass scans "dast_access_control"
case_pass check_dast_crypto scans = dast_check_pass scans "dast_crypto"
case_pass check_dast_auth scans = dast_check_pass scans "dast_auth"
case_pass check_dast_insecure_design scans = dast_check_pass scans "dast_insecure_design"
case_pass check_unknown scans = fail

unfoldable pub check_pass : String → ScanData → Status
unfolding check_of case_pass
check_pass check scans = case_pass (check_of check) scans

-- `passCount` and `failCount` of a control.
abbrev pub is_pass : Status → Bool
is_pass pass = true
is_pass _ = false

abbrev pub is_fail : Status → Bool
is_fail fail = true
is_fail partial = true
is_fail _ = false

unfoldable pub pass_count_of : List String → ScanData → ℕ
unfolding check_pass
pass_count_of [] scans = 0
pass_count_of (c ∷ cs) scans =
    let rest = pass_count_of cs scans in if is_pass (check_pass c scans) then suc rest else rest

unfoldable pub fail_count_of : List String → ScanData → ℕ
unfolding check_pass
fail_count_of [] scans = 0
fail_count_of (c ∷ cs) scans =
    let rest = fail_count_of cs scans in if is_fail (check_pass c scans) then suc rest else rest

unfoldable pub control_status : (pass_count fail_count : ℕ) → Status
control_status zero zero = not_applicable
control_status (suc p) zero = pass
control_status zero (suc f) = fail
control_status (suc p) (suc f) = partial

unfoldable pub evaluate_control : Control → ScanData → ControlResult
unfolding pass_count_of fail_count_of control_status
evaluate_control control scans = record {
  control_id = control.id;
  control_name = control.name;
  status = control_status (pass_count_of control.checks scans) (fail_count_of control.checks scans);
}

abbrev pub tally : Status → FrameworkResult → FrameworkResult
tally pass r = record r { pass_count = suc r.pass_count; total_count = suc r.total_count }
tally fail r = record r { fail_count = suc r.fail_count; total_count = suc r.total_count }
tally partial r = record r { partial_count = suc r.partial_count; total_count = suc r.total_count }
tally not_applicable r = r

-- The loop over the controls; the counts do not depend on their order.
unfoldable pub evaluate_framework : List Control → ScanData → FrameworkResult
unfolding evaluate_control
evaluate_framework [] scans = record {
  pass_count = 0;
  partial_count = 0;
  fail_count = 0;
  total_count = 0;
  controls = [];
}
evaluate_framework (control ∷ rest) scans =
    let result = evaluate_control control scans in
    let after = evaluate_framework rest scans in
    tally result.status (record after { controls = result ∷ after.controls })
