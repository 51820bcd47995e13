-- ===== src/Leaks/Tests.antt =====
-- The leaked password of an administrator.
use flyto_warroom.Prelude.{◌*◌, ◌≤◌, ◌≡◌, refl, true, false, some, none, arith}
use flyto_warroom.Leaks.{
  day, critical, high, at_least, severity_rank, score_leaked_principal, no_mfa, freshness_of,
  score_leak, freshness_severity, days_between,
}
use flyto_warroom.Leaks.Order.{IsLadder, leaked-IsLadder, older_no_worse}

-- Without a second factor that is known, an old leak of an administrator is still critical.
old_admin : score_leaked_principal (some 0) (400 * day) false true false none ≡ critical
unfolding score_leaked_principal
old_admin = refl

-- The leak of a guest without privileges is high, whatever the second factor.
old_guest : score_leaked_principal (some 0) (400 * day) false false true none ≡ high
unfolding score_leaked_principal score_leak freshness_severity days_between at_least severity_rank
old_guest = refl

leaked-IsLadder_example :
    IsLadder
      (score_leak (some 0) (400 * day) false)
      (score_leaked_principal (some 0) (400 * day) false true false (some true))
      true
      false
      (no_mfa (some true))
leaked-IsLadder_example = leaked-IsLadder (some 0) (400 * day) false true false (some true)

older_no_worse_example :
    (severity_rank (score_leaked_principal (some 0) (400 * day) false false true none)
      ≤ severity_rank (score_leaked_principal (some 0) (3 * day) false false true none))
    × ((freshness_of (some 0) (400 * day)).1 ≤ (freshness_of (some 0) (3 * day)).1)
older_no_worse_example =
    older_no_worse (some 0) (3 * day) (400 * day) false false true none (omega arith)
