-- ===== src/Leaks/Identity.antt =====
-- identityscore/identityscore.go: the gaps of an identity, without the texts of their reasons.
use flyto_warroom.Prelude.{
  ℕ, ◌==◌, String, Bool, true, false, not, ◌&&◌, ◌||◌, Option, none, some, ltb, if◌then◌else◌,
  str_eq, to_lower,
}
use flyto_warroom.Leaks.{Severity, high, medium, no_risk, days_between, no_mfa}

pub record IdentitySignal : Type 0 where
  pub resource_id : String
  pub principal : String
  pub mfa_enrolled : Option Bool
  pub status : String

unfoldable pub score_no_mfa : (mfa_enrolled : Option Bool) → Severity
score_no_mfa none = high
score_no_mfa (some enrolled) = if not enrolled then high else no_risk

-- `strings.EqualFold` with a text that only its ASCII letters fold to.
unfoldable pub score_bad_status : (status : String) → Severity
score_bad_status status =
    if str_eq status "" || str_eq (to_lower status) "active" then no_risk else high

abbrev pub is_risk : Severity → Bool
is_risk no_risk = false
is_risk _ = true

unfoldable pub is_at_risk : IdentitySignal → Bool
unfolding score_no_mfa score_bad_status
is_at_risk s = is_risk (score_no_mfa s.mfa_enrolled) || is_risk (score_bad_status s.status)

-- The threshold is that of the organisation, where one that is not positive is 0 here.
unfoldable pub score_stale : (last_login : Option ℕ) → (now threshold_days : ℕ) → Severity
unfolding days_between
score_stale none now threshold_days = no_risk
score_stale (some login) now threshold_days =
    if threshold_days == 0
    then no_risk
    else if ltb (days_between now login) threshold_days
    then no_risk
    else medium

unfoldable pub score_privileged_no_mfa :
    (is_privileged : Bool) → (mfa_enrolled : Option Bool) → Severity
score_privileged_no_mfa is_privileged mfa_enrolled =
    if not is_privileged then no_risk else if not (no_mfa mfa_enrolled) then no_risk else high

unfoldable pub score_inactive_service_account :
    (kind : String) → (last_login : Option ℕ) → (now threshold_days : ℕ) → Severity
unfolding score_stale
score_inactive_service_account kind last_login now threshold_days =
    if not (str_eq kind "service_account")
    then no_risk
    else score_stale last_login now threshold_days

unfoldable pub score_external_privileged : (is_external is_privileged : Bool) → Severity
score_external_privileged is_external is_privileged =
    if is_external && is_privileged then medium else no_risk
