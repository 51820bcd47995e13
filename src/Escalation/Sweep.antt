-- ===== src/Escalation/Sweep.antt =====
-- What re-running the rule on its own result does.
use flyto_warroom.Prelude.{
  ℕ, ◌≤◌, ◌<◌, ◌≡◌, ◌≢◌, ◌↔◌, refl, String, to_lower, trim_space, true, false, Option, arith,
}
use flyto_warroom.Escalation.{
  Severity, critical, high, medium, low, ExploitFacts, kev_entry, epss_climb, Packages, kev_fires,
  epss_crossed, normalize_severity, severity_name, severity_rank, bump_one, evaluate,
  evaluate_severity,
}

normalize-name : (s : Severity) → normalize_severity (severity_name s) ≡ s
unfolding normalize_severity severity_name to_lower trim_space
normalize-name critical = refl
normalize-name high = refl
normalize-name medium = refl
normalize-name low = refl

module _ (pkg : Packages) (first_seen : Option ℕ) (facts : ExploitFacts) where
  -- The rule never lowers a severity, and it re-escalates exactly when it raises it.
  pub evaluate_raises :
      (current : String)
      → let d = evaluate pkg current first_seen facts in
        (severity_rank d.new_severity ≤ severity_rank (normalize_severity current))
        × ((d.reescalate ≡ true)
            ↔ (severity_rank d.new_severity < severity_rank (normalize_severity current)))
  unfolding evaluate evaluate_severity kev_fires epss_crossed bump_one
  evaluate_raises current = ground arith

  kev_is_critical :
      (s : Severity)
      → (evaluate_severity pkg s first_seen facts).trigger ≡ kev_entry
      → (evaluate_severity pkg s first_seen facts).new_severity ≡ critical
  unfolding evaluate_severity
  kev_is_critical s h = ground arith

  -- After a re-escalation for a KEV entry the rule leaves the finding alone.
  pub kev_idempotent :
      (current : String)
      → (evaluate pkg current first_seen facts).trigger ≡ kev_entry
      → (evaluate pkg
          (severity_name (evaluate pkg current first_seen facts).new_severity)
          first_seen
          facts).reescalate
        ≡ false
  unfolding evaluate
  kev_idempotent current h =
      rw (kev_is_critical (normalize_severity current) h, normalize-name)
        (unfold evaluate_severity kev_fires bump_one in ground arith)

  again_iff :
      (s : Severity)
      → let d = evaluate_severity pkg s first_seen facts in
        ((evaluate_severity pkg d.new_severity first_seen facts).reescalate ≡ true)
        ↔ ((d.trigger ≡ epss_climb) × (d.new_severity ≢ critical))
  unfolding evaluate_severity kev_fires bump_one
  again_iff critical = ground arith
  again_iff high = ground arith
  again_iff medium = ground arith
  again_iff low = ground arith

  -- Feeding the severity of a decision back as the current one, with the facts unchanged, re-escalates just where
  -- the decision was to climb by EPSS and has not reached critical; in all other cases the rule is idempotent.
  pub fed_back_iff :
      (current : String)
      → let d = evaluate pkg current first_seen facts in
        ((evaluate pkg (severity_name d.new_severity) first_seen facts).reescalate ≡ true)
        ↔ ((d.trigger ≡ epss_climb) × (d.new_severity ≢ critical))
  unfolding evaluate
  fed_back_iff current = rw normalize-name (again_iff (normalize_severity current))
