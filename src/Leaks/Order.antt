-- ===== src/Leaks/Order.antt =====
-- What makes a leak worse.
use flyto_warroom.Prelude.{
  ℕ, ◌≤◌, ◌≡◌, ◌↔◌, ◌⊎◌, Bool, true, false, ◌&&◌, ◌||◌, Option, none, some, arith, if◌then◌else◌,
}
use flyto_warroom.Leaks.{
  Severity, critical, high, days_between, freshness_of, freshness_severity, bump, score_leak,
  severity_rank, at_least, no_mfa, score_leaked_principal,
}

-- A leak is no more than high before the owner is looked at.
not_critical :
    (last_seen : Option ℕ) (now : ℕ) (plain : Bool)
    → severity_rank (score_leak last_seen now plain) ≤ 3
unfolding score_leak freshness_severity bump severity_rank
not_critical none now plain = ground arith
not_critical (some seen) now plain = ground arith

-- The ladder of `ScoreLeakedPrincipal` from the severity of the leak alone.
abbrev pub IsLadder : (base scored : Severity) (is_privileged is_external no_factor : Bool) → Type 0
unfolding severity_rank
IsLadder base scored is_privileged is_external no_factor =
    ((scored ≡ critical) ↔ ((is_privileged ≡ true) × ((is_external || no_factor) ≡ true)))
    × (severity_rank base ≤ severity_rank scored)
    × ((((is_privileged || is_external) ≡ true) × (severity_rank high ≤ severity_rank scored))
        ⊎ (((is_privileged || is_external) ≡ false) × (scored ≡ base)))

owner_climbs :
    (base : Severity) (p x m : Bool)
    → severity_rank base ≤ 3
    → IsLadder base
        (if p && (x || m)
          then critical
          else if p
          then at_least base high
          else if x
          then at_least base high
          else base)
        p
        x
        m
unfolding at_least severity_rank IsLadder
owner_climbs base p x m h = grind (arith, h)

-- A leaked credential is critical just where its owner is privileged, and external or not known to have a second
-- factor; that of any privileged or external owner is at least high; no owner makes it less severe than the leak is
-- alone, and an ordinary one leaves it as it is.
pub leaked-IsLadder :
    (last_seen : Option ℕ) (now : ℕ) (plaintext_available is_privileged is_external : Bool)
    (mfa_enrolled : Option Bool)
    → IsLadder
        (score_leak last_seen now plaintext_available)
        (score_leaked_principal last_seen now plaintext_available is_privileged is_external
          mfa_enrolled)
        is_privileged
        is_external
        (no_mfa mfa_enrolled)
unfolding score_leaked_principal
leaked-IsLadder last_seen now plaintext_available is_privileged is_external mfa_enrolled =
    owner_climbs (score_leak last_seen now plaintext_available) is_privileged is_external
      (no_mfa mfa_enrolled) (not_critical last_seen now plaintext_available)

days_mono : (seen now later : ℕ) → now ≤ later → days_between now seen ≤ days_between later seen
unfolding days_between
days_mono seen now later h = omega (arith, h)

owner_mono :
    (base worse : Severity) (p x m : Bool)
    → severity_rank base ≤ severity_rank worse
    → severity_rank (
        if p && (x || m)
        then critical
        else if p
        then at_least base high
        else if x
        then at_least base high
        else base)
      ≤ severity_rank (
          if p && (x || m)
          then critical
          else if p
          then at_least worse high
          else if x
          then at_least worse high
          else worse)
unfolding at_least severity_rank
owner_mono base worse p x m h = ground (arith, h)

bump_mono :
    (base worse : Severity) (plain : Bool)
    → severity_rank base ≤ severity_rank worse
    → severity_rank (if plain then bump base else base)
      ≤ severity_rank (if plain then bump worse else worse)
unfolding bump severity_rank
bump_mono base worse plain h = ground (arith, h)

freshness_severity_mono :
    (last_seen : Option ℕ) (now later : ℕ)
    → now ≤ later
    → severity_rank (freshness_severity last_seen later)
      ≤ severity_rank (freshness_severity last_seen now)
unfolding freshness_severity severity_rank
freshness_severity_mono none now later h = ground arith
freshness_severity_mono (some seen) now later h = ground (arith, days_mono seen now later h)

confidence_mono :
    (last_seen : Option ℕ) (now later : ℕ)
    → now ≤ later
    → (freshness_of last_seen later).1 ≤ (freshness_of last_seen now).1
unfolding freshness_of
confidence_mono none now later h = ground arith
confidence_mono (some seen) now later h = ground (arith, days_mono seen now later h)

-- As time passes a leak becomes no worse, and no likelier to work.
pub older_no_worse :
    (last_seen : Option ℕ) (now later : ℕ) (plaintext_available is_privileged is_external : Bool)
    (mfa_enrolled : Option Bool)
    → now ≤ later
    → (severity_rank (
          score_leaked_principal last_seen later plaintext_available is_privileged is_external
            mfa_enrolled)
        ≤ severity_rank (
            score_leaked_principal last_seen now plaintext_available is_privileged is_external
              mfa_enrolled))
      × ((freshness_of last_seen later).1 ≤ (freshness_of last_seen now).1)
unfolding score_leaked_principal score_leak
older_no_worse last_seen now later plaintext_available is_privileged is_external mfa_enrolled h = (
  owner_mono _ _ is_privileged is_external (no_mfa mfa_enrolled)
      (bump_mono _ _ plaintext_available (freshness_severity_mono last_seen now later h)),
  confidence_mono last_seen now later h,
)
