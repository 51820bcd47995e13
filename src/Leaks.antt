-- ===== src/Leaks.antt =====
-- leakscore/leakscore.go: how bad a leaked credential is, and how likely it still works. The texts of the reasons are
-- left out. Instants are in nanoseconds.
pub mod Order
pub mod Identity
mod Tests
use flyto_warroom.Prelude.{
  ℕ, ◌-◌, ◌*◌, ◌/◌, Bool, true, false, not, ◌&&◌, ◌||◌, Option, none, some, leb, if◌then◌else◌,
}

pub data Severity : Type 0 where
  critical high medium low no_risk : Severity

pub data Freshness : Type 0 where
  fresh recent stale unknown : Freshness

abbrev pub fresh_leak_days : ℕ
fresh_leak_days = 30

abbrev pub old_leak_days : ℕ
old_leak_days = 365

abbrev pub day : ℕ
day = 24 * 3_600_000_000_000

-- The days from `earlier` on, where the source has a number below 1 for an instant in the future, as for today.
unfoldable pub days_between : (now earlier : ℕ) → ℕ
days_between now earlier = (now - earlier) / day

-- With the confidence that the credential still works, of 100.
unfoldable pub freshness_of : (last_seen : Option ℕ) → (now : ℕ) → Freshness × ℕ
unfolding days_between
freshness_of none now = (unknown, 50)
freshness_of (some seen) now =
    let d = days_between now seen in
    if leb d fresh_leak_days
    then (fresh, 90)
    else if leb d old_leak_days
    then (recent, 60)
    else (stale, 25)

unfoldable pub freshness_severity : (last_seen : Option ℕ) → (now : ℕ) → Severity
unfolding days_between
freshness_severity none now = medium
freshness_severity (some seen) now =
    let d = days_between now seen in
    if leb d fresh_leak_days then high else if leb d old_leak_days then medium else low

unfoldable pub bump : Severity → Severity
bump low = medium
bump medium = high
bump high = high
bump critical = critical
bump no_risk = no_risk

unfoldable pub score_leak :
    (last_seen : Option ℕ) → (now : ℕ) → (plaintext_available : Bool) → Severity
unfolding freshness_severity bump
score_leak last_seen now plaintext_available =
    let base = freshness_severity last_seen now in if plaintext_available then bump base else base

unfoldable pub severity_rank : Severity → ℕ
severity_rank critical = 4
severity_rank high = 3
severity_rank medium = 2
severity_rank low = 1
severity_rank no_risk = 0

unfoldable pub at_least : (base floor : Severity) → Severity
unfolding severity_rank
at_least base floor = if leb (severity_rank floor) (severity_rank base) then base else floor

-- `mfaEnrolled == nil || !*mfaEnrolled`
abbrev pub no_mfa : Option Bool → Bool
no_mfa none = true
no_mfa (some enrolled) = not enrolled

unfoldable pub score_leaked_principal :
    (last_seen : Option ℕ) (now : ℕ) (plaintext_available is_privileged is_external : Bool)
    (mfa_enrolled : Option Bool)
    → Severity
unfolding score_leak at_least
score_leaked_principal last_seen now plaintext_available is_privileged is_external mfa_enrolled =
    let base = score_leak last_seen now plaintext_available in
    if is_privileged && (is_external || no_mfa mfa_enrolled)
    then critical
    else if is_privileged
    then at_least base high
    else if is_external
    then at_least base high
    else base

-- `None` stands for the zero time.
unfoldable pub score_domain_leak : (last_seen : Option ℕ) → (now : ℕ) → Severity
unfolding freshness_severity
score_domain_leak last_seen now = freshness_severity last_seen now
