-- ===== src/Compliance/Tables.antt =====
-- `frameworkControls` and `EvaluateFrameworks`.
use flyto_warroom.Prelude.{String, List, [], ◌∷◌}
use flyto_warroom.Compliance.{
  Framework, soc2, iso27001, pci_dss, owasp_top10, gdpr, hipaa, nist_csf, Control, FrameworkResult,
  ScanData, evaluate_framework,
}

unfoldable pub control : (id name description : String) → List String → Control
control id name description checks = record {
  id = id;
  name = name;
  description = description;
  checks = checks;
}

unfoldable pub soc2_controls : List Control
unfolding control
soc2_controls =
    control "CC6.1" "Logical Access Controls" "Restrict access to information assets"
      ("secret_scan" ∷ "auth_headers" ∷ [])
    ∷ control "CC6.6" "System Boundaries" "Manage threats at system boundaries"
        ("hsts" ∷ "csp" ∷ "x_frame_options" ∷ [])
    ∷ control "CC6.8" "Malicious Software Prevention"
        "Prevent installation of unauthorized software" ("cve_check" ∷ "dependency_scan" ∷ [])
    ∷ control "CC7.1" "Monitoring" "Detect configuration changes and vulnerabilities"
        ("auto_scan" ∷ "cve_check" ∷ [])
    ∷ control "CC7.2" "System Monitoring" "Monitor system components for anomalies"
        ("auto_scan" ∷ "port_scan" ∷ [])
    ∷ control "CC8.1" "Change Management" "Authorize, design, develop, configure, test changes"
        ("auto_scan" ∷ "scan_coverage" ∷ [])
    ∷ []

unfoldable pub iso27001_controls : List Control
unfolding control
iso27001_controls =
    control "A.8.9" "Configuration Management"
      "Ensure configurations are established and maintained" ("cve_check" ∷ "auto_scan" ∷ [])
    ∷ control "A.8.8" "Technical Vulnerability Management"
        "Obtain information about technical vulnerabilities" ("cve_check" ∷ "dependency_scan" ∷ [])
    ∷ control "A.8.12" "Data Leakage Prevention" "Prevent unauthorized disclosure of information"
        ("secret_scan" ∷ [])
    ∷ control "A.8.20" "Network Security" "Protect information in networks"
        ("hsts" ∷ "ssl" ∷ "port_scan" ∷ [])
    ∷ control "A.8.24" "Use of Cryptography" "Effective use of cryptography" ("hsts" ∷ "ssl" ∷ [])
    ∷ control "A.8.25" "Secure Development Lifecycle" "Rules for secure development"
        ("auto_scan" ∷ "scan_coverage" ∷ "cve_check" ∷ [])
    ∷ []

unfoldable pub pci_dss_controls : List Control
unfolding control
pci_dss_controls =
    control "6.2" "Custom Software Security" "Develop software securely"
      ("cve_check" ∷ "secret_scan" ∷ "scan_coverage" ∷ [])
    ∷ control "6.3.2" "Software Inventory"
        "Maintain an inventory of custom and third-party software" ("dependency_scan" ∷ [])
    ∷ control "6.5" "Known Vulnerabilities" "Address common coding vulnerabilities"
        ("cve_check" ∷ "dast_injection" ∷ [])
    ∷ control "11.3" "Vulnerability Scanning" "Perform internal and external vulnerability scans"
        ("cve_check" ∷ "port_scan" ∷ "auto_scan" ∷ [])
    ∷ control "2.2.2" "System Hardening" "Remove unnecessary services and ports"
        ("port_scan" ∷ "x_content_type" ∷ [])
    ∷ []

unfoldable pub owasp_top10_controls : List Control
unfolding control
owasp_top10_controls =
    control "A01" "Broken Access Control" "Access control enforcement"
      ("auth_headers" ∷ "x_frame_options" ∷ "csp" ∷ "dast_access_control" ∷ [])
    ∷ control "A02" "Cryptographic Failures" "Failures related to cryptography"
        ("hsts" ∷ "ssl" ∷ "secret_scan" ∷ "dast_crypto" ∷ [])
    ∷ control "A03" "Injection" "SQL, NoSQL, OS command injection"
        ("csp" ∷ "x_content_type" ∷ "dast_injection" ∷ [])
    ∷ control "A04" "Insecure Design" "Missing or ineffective control design"
        ("dast_insecure_design" ∷ [])
    ∷ control "A05" "Security Misconfiguration" "Missing or misconfigured security hardening" (
        "hsts" ∷ "csp" ∷ "x_frame_options" ∷ "x_content_type" ∷ "port_scan" ∷ "dast_misconfig" ∷ [])
    ∷ control "A06" "Vulnerable Components" "Using components with known vulnerabilities"
        ("cve_check" ∷ "dependency_scan" ∷ [])
    ∷ control "A07" "Identification and Authentication Failures"
        "Authentication and session management flaws" ("dast_auth" ∷ [])
    ∷ control "A09" "Security Logging and Monitoring" "Insufficient logging and monitoring"
        ("auto_scan" ∷ [])
    ∷ control "A10" "Server-Side Request Forgery" "SSRF flaws" ("dast_ssrf" ∷ [])
    ∷ []

unfoldable pub gdpr_controls : List Control
unfolding control
gdpr_controls =
    control "Art.25" "Data Protection by Design" "Implement appropriate technical measures"
      ("hsts" ∷ "ssl" ∷ "csp" ∷ "secret_scan" ∷ [])
    ∷ control "Art.32" "Security of Processing" "Ensure appropriate security of personal data"
        ("hsts" ∷ "ssl" ∷ "cve_check" ∷ "secret_scan" ∷ [])
    ∷ control "Art.5.1f" "Integrity and Confidentiality"
        "Protection against unauthorized processing" ("secret_scan" ∷ "hsts" ∷ "ssl" ∷ [])
    ∷ []

unfoldable pub hipaa_controls : List Control
unfolding control
hipaa_controls =
    control "164.312(a)" "Access Control" "Implement technical policies for electronic PHI access"
      ("auth_headers" ∷ "secret_scan" ∷ [])
    ∷ control "164.312(c)" "Integrity" "Protect ePHI from improper alteration"
        ("hsts" ∷ "ssl" ∷ "csp" ∷ [])
    ∷ control "164.312(e)" "Transmission Security"
        "Guard against unauthorized access during transmission" ("hsts" ∷ "ssl" ∷ [])
    ∷ control "164.308(a)(5)" "Security Awareness" "Security awareness and training program"
        ("auto_scan" ∷ "cve_check" ∷ [])
    ∷ []

unfoldable pub nist_csf_controls : List Control
unfolding control
nist_csf_controls =
    control "ID.RA-1" "Asset Vulnerabilities" "Identify and document asset vulnerabilities"
      ("cve_check" ∷ "dependency_scan" ∷ "port_scan" ∷ [])
    ∷ control "PR.DS-2" "Data in Transit" "Protect data in transit" ("hsts" ∷ "ssl" ∷ [])
    ∷ control "PR.IP-12" "Vulnerability Management"
        "Develop and implement a vulnerability management plan" ("cve_check" ∷ "auto_scan" ∷ [])
    ∷ control "PR.AC-7" "Device and Asset Authentication" "Authenticate users, devices, and assets"
        ("auth_headers" ∷ "secret_scan" ∷ [])
    ∷ control "DE.CM-8" "Vulnerability Scans" "Perform vulnerability scans"
        ("cve_check" ∷ "port_scan" ∷ "auto_scan" ∷ [])
    ∷ []

unfoldable pub framework_controls : Framework → List Control
unfolding soc2_controls iso27001_controls pci_dss_controls owasp_top10_controls gdpr_controls
    hipaa_controls nist_csf_controls
framework_controls soc2 = soc2_controls
framework_controls iso27001 = iso27001_controls
framework_controls pci_dss = pci_dss_controls
framework_controls owasp_top10 = owasp_top10_controls
framework_controls gdpr = gdpr_controls
framework_controls hipaa = hipaa_controls
framework_controls nist_csf = nist_csf_controls

-- The frameworks that are asked for, or all.
abbrev pub all_frameworks : List Framework
all_frameworks = soc2 ∷ iso27001 ∷ pci_dss ∷ owasp_top10 ∷ gdpr ∷ hipaa ∷ nist_csf ∷ []

abbrev pub requested : List Framework → List Framework
requested [] = all_frameworks
requested frameworks = frameworks

unfoldable pub evaluate_each : List Framework → ScanData → List (Framework × FrameworkResult)
unfolding framework_controls evaluate_framework
evaluate_each [] scans = []
evaluate_each (f ∷ fs) scans =
    (f, evaluate_framework (framework_controls f) scans) ∷ evaluate_each fs scans

unfoldable pub evaluate_frameworks : ScanData → List Framework → List (Framework × FrameworkResult)
unfolding evaluate_each
evaluate_frameworks scans frameworks = evaluate_each (requested frameworks) scans
