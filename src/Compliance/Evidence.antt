-- ===== src/Compliance/Evidence.antt =====
-- compliance/evidence.go: the binder of the evidence for an auditor. SHA-256 in hexadecimal and the format of a
-- time are parameters; the descriptions of the sources are left out, as are the two renderings.
use flyto_warroom.Prelude.{String, ◌||◌, Option, none, some, List, [], ◌∷◌, str_eq, if◌then◌else◌}
use Prim.Native.String.{◌++◌ as ◌++ₛ◌}
use flyto_warroom.Prelude.Dict.{Dict, lookup}
use flyto_warroom.Compliance.{
  Framework, soc2, iso27001, pci_dss, owasp_top10, gdpr, hipaa, nist_csf, ControlResult,
  FrameworkResult,
}

pub record EvidenceItem {ℓ} (Time : Type ℓ) : Type ℓ where
  pub source : String
  pub collected_at : Time
  pub hash : String

pub record ControlEvidence {ℓ} (Time : Type ℓ) : Type ℓ where
  pub result : ControlResult
  pub evidence : List (EvidenceItem Time)

pub record EvidenceBinder {ℓ} (Time : Type ℓ) : Type ℓ where
  pub org_id : String
  pub org_name : String
  pub framework : Framework
  pub generated_at : Time
  pub controls : List (ControlEvidence Time)
  pub envelope_hash : String

unfoldable pub framework_name : Framework → String
framework_name soc2 = "SOC2"
framework_name iso27001 = "ISO27001"
framework_name pci_dss = "PCI_DSS"
framework_name owasp_top10 = "OWASP_TOP10"
framework_name gdpr = "GDPR"
framework_name hipaa = "HIPAA"
framework_name nist_csf = "NIST_CSF"

unfoldable pub control_source_keys : (control_id : String) → List String
control_source_keys id =
    if str_eq id "CIS-3.10"
    then "ssl_cert" ∷ "hsts_header" ∷ []
    else if str_eq id "CIS-9.2" || (str_eq id "CIS-9.3" || str_eq id "CIS-13.6")
    then "dnssec" ∷ "waf" ∷ "dns_security" ∷ []
    else if str_eq id "CIS-12.1"
    then "cve_results" ∷ []
    else if str_eq id "PR.DS-1" || str_eq id "PR.DS-2"
    then "ssl_cert" ∷ "hsts_header" ∷ []
    else if str_eq id "PR.AC-3" || str_eq id "PR.AC-5"
    then "port_scan" ∷ "waf" ∷ []
    else if str_eq id "PR.IP-1"
    then "csp_header" ∷ "hsts_header" ∷ []
    else if str_eq id "DE.CM-1"
    then "waf" ∷ []
    else if str_eq id "DE.CM-8"
    then "cve_results" ∷ "sast_results" ∷ []
    else if str_eq id "ID.RA-1"
    then "cve_results" ∷ "secret_scan" ∷ "iac_results" ∷ []
    else if str_eq id "PR.DS-5"
    then "sensitive_files" ∷ []
    else if str_eq id "PCI-1.3.1"
    then "port_scan" ∷ []
    else if str_eq id "PCI-2.2.7" || str_eq id "PCI-4.1"
    then "ssl_cert" ∷ "hsts_header" ∷ []
    else if str_eq id "PCI-6.4.1"
    then "cve_results" ∷ []
    else if str_eq id "PCI-6.4.2"
    then "waf" ∷ []
    else if str_eq id "PCI-11.3.1" || str_eq id "PCI-11.3.2"
    then "cve_results" ∷ "sast_results" ∷ []
    else if str_eq id "A.8.24"
    then "ssl_cert" ∷ []
    else if str_eq id "A.8.20"
    then "waf" ∷ "dns_security" ∷ []
    else if str_eq id "A.8.9"
    then "csp_header" ∷ "hsts_header" ∷ "sensitive_files" ∷ []
    else if str_eq id "A.8.8"
    then "cve_results" ∷ []
    else if str_eq id "A.5.23"
    then "ssl_cert" ∷ "waf" ∷ []
    else if str_eq id "A.8.21"
    then "port_scan" ∷ []
    else if str_eq id "A.8.12"
    then "sensitive_files" ∷ "subdomain_takeover" ∷ []
    else []

-- `raw, ok := rawSources[srcKey]; if !ok || raw == "" { continue }`
abbrev pub present : Option String → Option String
present none = none
present (some raw) = if str_eq raw "" then none else some raw

module _ {ℓ} {Time : Type ℓ} (sha256_hex : String → String) (rfc3339 : Time → String) where
  -- The evidence for the keys, and the envelope with the hashes written to it.
  unfoldable pub cite :
      (keys : List String)
      → Dict String
      → Time
      → (envelope : String) → List (EvidenceItem Time) × String
  unfolding lookup
  cite [] sources now envelope = ([], envelope)
  cite (key ∷ keys) sources now envelope = elim (present (lookup key sources)) [
    | none ↦ cite keys sources now envelope
    | some raw ↦
        let (items, after) = cite keys sources now (envelope ++ₛ "|" ++ₛ sha256_hex raw) in
        (record { source = key; collected_at = now; hash = sha256_hex raw } ∷ items, after)
  ]

  unfoldable pub cite_controls :
      List ControlResult
      → Dict String
      → Time
      → (envelope : String) → List (ControlEvidence Time) × String
  unfolding cite
  cite_controls [] sources now envelope = ([], envelope)
  cite_controls (c ∷ cs) sources now envelope =
      let (items, cited) = cite (control_source_keys c.control_id) sources now envelope in
      let (rest, after) = cite_controls cs sources now cited in
      (record { result = c; evidence = items } ∷ rest, after)

  unfoldable pub build_binder :
      (org_id org_name : String)
      → Framework
      → FrameworkResult
      → Dict String
      → Time
      → EvidenceBinder Time
  unfolding cite_controls
  build_binder org_id org_name framework result sources now =
      let (controls, envelope) =
        cite_controls result.controls sources now
          (framework_name framework ++ₛ "|" ++ₛ rfc3339 now ++ₛ "|" ++ₛ org_id) in
      record {
        org_id = org_id;
        org_name = org_name;
        framework = framework;
        generated_at = now;
        controls = controls;
        envelope_hash = sha256_hex envelope;
      }
