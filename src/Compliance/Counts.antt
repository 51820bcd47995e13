-- ===== src/Compliance/Counts.antt =====
-- The counts and the tables of the frameworks.
use flyto_warroom.Prelude.{
  ℕ, ◌+◌, ◌≡◌, ◌≢◌, refl, String, Bool, true, false, List, [], ◌∷◌, arith, All, length, select, any,
  ap, ◌||◌,
}
use flyto_warroom.Compliance.{
  Framework, soc2, iso27001, pci_dss, owasp_top10, gdpr, hipaa, nist_csf, Control, Status, pass,
  fail, partial, not_applicable, ControlResult, FrameworkResult, ScanData, Check, check_unknown,
  check_of, tally, evaluate_control, evaluate_framework,
}
use flyto_warroom.Compliance.Tables.{
  framework_controls, control, soc2_controls, iso27001_controls, pci_dss_controls,
  owasp_top10_controls, gdpr_controls, hipaa_controls, nist_csf_controls,
}

-- The results of a status.
abbrev pub is_status : Status → Status → Bool
is_status pass pass = true
is_status fail fail = true
is_status partial partial = true
is_status not_applicable not_applicable = true
is_status _ _ = false

abbrev pub number_of : Status → List ControlResult → ℕ
unfolding select
number_of s rs = length (select (λ r. is_status s r.status) rs)

-- What the counts of a framework say of its controls.
abbrev pub IsCounted : FrameworkResult → Type 0
unfolding select
IsCounted r =
    (r.pass_count ≡ number_of pass r.controls)
    × (r.partial_count ≡ number_of partial r.controls)
    × (r.fail_count ≡ number_of fail r.controls)
    × (r.total_count ≡ r.pass_count + r.partial_count + r.fail_count)
    × (r.total_count + number_of not_applicable r.controls ≡ length r.controls)

tally-IsCounted :
    (c : ControlResult) (r : FrameworkResult)
    → IsCounted r
    → IsCounted (tally c.status (record r { controls = c ∷ r.controls }))
unfolding select
tally-IsCounted c r (p, q, f, t, n) = ground (arith, p, q, f, t, n)

-- The counts are those of the statuses of the controls, and every control is in one of them or not applicable.
pub counts_agree :
    (controls : List Control) (scans : ScanData) → IsCounted (evaluate_framework controls scans)
unfolding evaluate_framework select
counts_agree [] scans = (refl, refl, refl, refl, refl)
counts_agree (c ∷ cs) scans = tally-IsCounted (evaluate_control c scans) _ (counts_agree cs scans)

every_control_rated :
    (controls : List Control) (scans : ScanData)
    → length (evaluate_framework controls scans).controls ≡ length controls
unfolding evaluate_framework
every_control_rated [] scans = refl
every_control_rated (c ∷ cs) scans =
    omega (arith, every_control_rated cs scans, tally_controls (evaluate_control c scans).status _)
  where
    tally_controls :
        (s : Status) (r : FrameworkResult) → length (tally s r).controls ≡ length r.controls
    tally_controls s r = ground arith

abbrev is_unknown : Check → Bool
is_unknown check_unknown = true
is_unknown _ = false

abbrev names_unknown : List Control → Bool
unfolding any
names_unknown controls = any (λ c. any (λ check. is_unknown (check_of check)) c.checks) controls

or_neither : (a b : Bool) → (a || b) ≡ false → (a ≡ false) × (b ≡ false)
or_neither a b h = ground (arith, h)

unknown_no_case : (c : Check) → is_unknown c ≡ false → c ≢ check_unknown
unknown_no_case c h e = absurd (cc (h, ap is_unknown e))

none_unknown-All :
    (names : List String)
    → any (λ check. is_unknown (check_of check)) names ≡ false
    → All (λ check. check_of check ≢ check_unknown) names
unfolding any
none_unknown-All [] h = tt
none_unknown-All (n ∷ ns) h =
    let (here, later) = or_neither _ (any (λ check. is_unknown (check_of check)) ns) h in
    (unknown_no_case (check_of n) here, none_unknown-All ns later)

names_unknown-All :
    (controls : List Control)
    → names_unknown controls ≡ false
    → All (λ c. All (λ check. check_of check ≢ check_unknown) c.checks) controls
unfolding any
names_unknown-All [] h = tt
names_unknown-All (c ∷ cs) h =
    let (here, later) =
      or_neither (any (λ check. is_unknown (check_of check)) c.checks) (names_unknown cs) h in
    (none_unknown-All c.checks here, names_unknown-All cs later)

-- Every check that a control of a framework names is a case of the switch.
pub checks_known :
    (framework : Framework)
    → All
        (λ c. All (λ check. check_of check ≢ check_unknown) c.checks)
        (framework_controls framework)
unfolding framework_controls any check_of soc2_controls iso27001_controls pci_dss_controls
    owasp_top10_controls gdpr_controls hipaa_controls nist_csf_controls control
checks_known soc2 = names_unknown-All (framework_controls soc2) refl
checks_known iso27001 = names_unknown-All (framework_controls iso27001) refl
checks_known pci_dss = names_unknown-All (framework_controls pci_dss) refl
checks_known owasp_top10 = names_unknown-All (framework_controls owasp_top10) refl
checks_known gdpr = names_unknown-All (framework_controls gdpr) refl
checks_known hipaa = names_unknown-All (framework_controls hipaa) refl
checks_known nist_csf = names_unknown-All (framework_controls nist_csf) refl
