-- ===== src/Platform/Verdicts.antt =====
-- What the analysis of a scan decides about the remediations of its repository.
use flyto_warroom.Prelude.{
  ℕ, ◌≡◌, ◌∙◌, refl, sym, String, Bool, true, false, Option, none, some, List, [], ◌∷◌, ◌++◌, arith,
  any, All, str_eq, ◌&&◌, ◌||◌, not, if_elim,
}
use mathlib.Core.Path.{subst, ap}
use flyto_warroom.Platform.{
  Db, Scan, Finding, AttackPath, Evidence, Remediation, proposed, resolved, not_run, verified_fixed,
  still_present,
}
use flyto_warroom.Platform.Tables.{first, update}
use flyto_warroom.Platform.Stages.{
  verify_remediation, verify_remediations, each_verified, judge, judged, found_again,
  finish_analysis, complete_analysis, is_verification_queued, set_analysis, put_all, and_put,
  put_path, put_evidence, put_remediation, same_path, same_evidence, scan_there, finding_there,
  finding_or_null, path_of, evidence_of, remediation_of,
}

-- A verification of the repository is queued.
abbrev pub waits_for : (repo : String) → Remediation → Bool
waits_for repo m = str_eq m.repo_id repo && is_verification_queued m.verification_status

-- The finding that a remediation is about.
abbrev about : List Finding → Remediation → Option Finding
about findings m = first (λ f. str_eq f.id m.finding_id) findings

-- A scan has a finding with the fingerprint of `g`.
abbrev recurs : List Finding → (scan : String) → Finding → Bool
recurs findings scan g =
    any (λ f. str_eq f.scan_id scan && str_eq f.fingerprint g.fingerprint) findings

abbrev IsNamed : Remediation → Remediation → Type 0
IsNamed b a = (a.id ≡ b.id) × (a.finding_id ≡ b.finding_id) × (a.repo_id ≡ b.repo_id)

abbrev IsUnmoved : Remediation → Remediation → Type 0
IsUnmoved b a = (a.status ≡ b.status) × (a.verification_status ≡ b.verification_status)

abbrev IsNew : Remediation → Type 0
IsNew a = (a.status ≡ proposed) × (a.verification_status ≡ not_run)

-- How a row stands before and after the analysis of a scan.
pub data Verdict (findings : List Finding) (s : Scan) (b a : Remediation) : Type 0 where
  not_queued : waits_for s.repo_id b ≡ false → IsUnmoved b a → Verdict findings s b a
  of_no_finding :
      waits_for s.repo_id b ≡ true
      → about findings b ≡ none
      → IsUnmoved b a
      → Verdict findings s b a
  found :
      (f : Finding)
      → waits_for s.repo_id b ≡ true
      → about findings b ≡ some f
      → recurs findings s.id f ≡ true
      → a.verification_status ≡ still_present
      → a.status ≡ b.status
      → Verdict findings s b a
  not_found :
      (f : Finding)
      → waits_for s.repo_id b ≡ true
      → about findings b ≡ some f
      → recurs findings s.id f ≡ false
      → a.verification_status ≡ verified_fixed
      → a.status ≡ resolved
      → Verdict findings s b a

-- The rows before stand first, in their order, each related to what it became; the others are new.
abbrev pub Continues :
    (Remediation → Remediation → Type 0) → List Remediation → List Remediation → Type 0
Continues R [] after = All IsNew after
Continues R (b ∷ bs) [] = ⊥
Continues R (b ∷ bs) (a ∷ after) = IsNamed b a × R b a × Continues R bs after

IsNew-after : (ms ns : List Remediation) → All IsNew ms → Continues IsUnmoved ms ns → All IsNew ns
IsNew-after [] ns all c = c
IsNew-after (m ∷ ms) [] all c = absurd c
IsNew-after (m ∷ ms) (n ∷ ns) ((p, q), all) (same, (e, e'), c) =
    ((e ∙ p, e' ∙ q), IsNew-after ms ns all c)

Continues-trans :
    (ks ms ns : List Remediation)
    → Continues IsUnmoved ks ms
    → Continues IsUnmoved ms ns
    → Continues IsUnmoved ks ns
Continues-trans [] ms ns c d = IsNew-after ms ns c d
Continues-trans (k ∷ ks) [] ns c d = absurd c
Continues-trans (k ∷ ks) (m ∷ ms) [] c d = absurd d
Continues-trans (k ∷ ks) (m ∷ ms) (n ∷ ns) ((i, j, l), (u, v), c) ((i', j', l'), (u', v'), d) =
    ((i' ∙ i, j' ∙ j, l' ∙ l), (u' ∙ u, v' ∙ v), Continues-trans ks ms ns c d)

Continues-refl : (ms : List Remediation) → Continues IsUnmoved ms ms
Continues-refl [] = tt
Continues-refl (m ∷ ms) = ((refl, refl, refl), (refl, refl), Continues-refl ms)

-- What the transaction has written when it comes to the verifications.
abbrev Extends : Db → Db → Type 0
Extends db db' = (db'.findings ≡ db.findings) × Continues IsUnmoved db.remediations db'.remediations

abbrev OfSome : (Db → Type 0) → Option Db → Type 0
OfSome P none = Unit {0}
OfSome P (some db) = P db

Extends-trans : (a b c : Db) → Extends a b → Extends b c → Extends a c
Extends-trans a b c (f, k) (f', k') =
    (f' ∙ f, Continues-trans a.remediations b.remediations c.remediations k k')

put_path-Extends : (p : AttackPath) (db : Db) → OfSome (Extends db) (put_path p db)
unfolding put_path
put_path-Extends p db =
    if_elim (OfSome (Extends db)) (any (same_path p) db.attack_paths)
      (λ h. (refl, Continues-refl db.remediations))
      (λ h.
        if_elim (OfSome (Extends db))
          (any (λ q. str_eq q.id p.id) db.attack_paths || not (scan_there p.scan_id db)) (λ h. tt)
          (λ h. (refl, Continues-refl db.remediations)))

put_evidence-Extends : (e : Evidence) (db : Db) → OfSome (Extends db) (put_evidence e db)
unfolding put_evidence
put_evidence-Extends e db =
    if_elim (OfSome (Extends db)) (any (same_evidence e) db.evidence)
      (λ h. (refl, Continues-refl db.remediations))
      (λ h.
        if_elim (OfSome (Extends db))
          (any (λ g. str_eq g.id e.id) db.evidence
            || (not (scan_there e.scan_id db)
                || not (finding_there (finding_or_null e.finding_id) db)))
          (λ h. tt) (λ h. (refl, Continues-refl db.remediations)))

Continues-update :
    (p : Remediation → Bool) (text : String) (now : ℕ) (ms : List Remediation)
    → Continues IsUnmoved ms
        (update p (λ q. record q { recommendation = text; updated_at = now }) ms)
unfolding update
Continues-update p text now [] = tt
Continues-update p text now (m ∷ ms) =
    let rest = Continues-update p text now ms in
    if_elim (Continues IsUnmoved (m ∷ ms)) (p m) (λ h. ((refl, refl, refl), (refl, refl), rest))
      (λ h. ((refl, refl, refl), (refl, refl), rest))

Continues-append :
    (ms : List Remediation) (n : Remediation) → IsNew n → Continues IsUnmoved ms (ms ++ n ∷ [])
Continues-append [] n h = (h, tt)
Continues-append (m ∷ ms) n h = ((refl, refl, refl), (refl, refl), Continues-append ms n h)

put_remediation-Extends :
    (now : ℕ) (m : Remediation) (db : Db) → OfSome (Extends db) (put_remediation m now db)
unfolding put_remediation
put_remediation-Extends now m db =
    if_elim (OfSome (Extends db)) (any (λ q. str_eq q.finding_id m.finding_id) db.remediations)
      (λ h. (
        refl,
        Continues-update (λ q. str_eq q.finding_id m.finding_id) m.recommendation now
            db.remediations,
      ))
      (λ h.
        if_elim (OfSome (Extends db))
          (any (λ q. str_eq q.id m.id) db.remediations
            || not (any (λ f. str_eq f.id m.finding_id) db.findings))
          (λ h. tt) (λ h. (refl, Continues-append db.remediations _ (refl, refl))))

Extends-some :
    (a b : Db) (o : Option Db) → Extends a b → OfSome (Extends b) o → OfSome (Extends a) o
Extends-some a b none e e' = tt
Extends-some a b (some c) e e' = Extends-trans a b c e e'

then-Extends :
    (next : Db → Option Db)
    → ((db : Db) → OfSome (Extends db) (next db))
    → (db : Db) (o : Option Db) → OfSome (Extends db) o
    → OfSome (Extends db) (elim o [ none ↦ none | some db' ↦ next db' ])
then-Extends next keep db none e = tt
then-Extends next keep db (some db') e = Extends-some db db' (next db') e (keep db')

module _ {ℓ} {A : Type ℓ} (put : A → Db → Option Db)
    (put-Extends : (x : A) (db : Db) → OfSome (Extends db) (put x db)) where
  put_all-Extends : (xs : List A) (db : Db) → OfSome (Extends db) (put_all put xs db)
  unfolding put_all
  put_all-Extends [] db = (refl, Continues-refl db.remediations)
  put_all-Extends (x ∷ xs) db =
      then-Extends (put_all put xs) (put_all-Extends xs) db (put x db) (put-Extends x db)

  and_put-Extends :
      (xs : List A) (db : Db) (o : Option Db)
      → OfSome (Extends db) o
      → OfSome (Extends db) (and_put o put xs)
  unfolding and_put
  and_put-Extends xs db none e = tt
  and_put-Extends xs db (some db') e =
      Extends-some db db' (put_all put xs db') e (put_all-Extends xs db')

judged-Verdict :
    (again : Bool) (f : Finding) (db : Db) (s : Scan) (now : ℕ) (m : Remediation)
    → waits_for s.repo_id m ≡ true
    → about db.findings m ≡ some f
    → recurs db.findings s.id f ≡ again
    → IsNamed m (judged again now m) × Verdict db.findings s m (judged again now m)
unfolding judged
judged-Verdict true f db s now m w e r = ((refl, refl, refl), Verdict.found f w e r refl refl)
judged-Verdict false f db s now m w e r = ((refl, refl, refl), Verdict.not_found f w e r refl refl)

judge-Verdict :
    (o : Option Finding) (db : Db) (s : Scan) (now : ℕ) (m : Remediation)
    → waits_for s.repo_id m ≡ true
    → about db.findings m ≡ o
    → IsNamed m (judge o db s.id now m) × Verdict db.findings s m (judge o db s.id now m)
unfolding judge found_again
judge-Verdict none db s now m w e = ((refl, refl, refl), Verdict.of_no_finding w e (refl, refl))
judge-Verdict (some f) db s now m w e = judged-Verdict (found_again db s.id f) f db s now m w e refl

verify_remediation-Verdict :
    (db : Db) (s : Scan) (now : ℕ) (m : Remediation)
    → IsNamed m (verify_remediation db s now m)
      × Verdict db.findings s m (verify_remediation db s now m)
unfolding verify_remediation
verify_remediation-Verdict db s now m =
    if_elim (λ r. IsNamed m r × Verdict db.findings s m r) (waits_for s.repo_id m)
      (λ w. judge-Verdict (about db.findings m) db s now m w refl)
      (λ w. ((refl, refl, refl), Verdict.not_queued w (refl, refl)))

-- A row that differs from `m` in its text only has the verdict of `m`.
Verdict-carried :
    (fs : List Finding) (s : Scan) (b m a : Remediation)
    → IsNamed b m
    → IsUnmoved b m
    → Verdict fs s m a
    → Verdict fs s b a
Verdict-carried fs s b m a (i, j, l) (u, v) (Verdict.not_queued w (p, q)) =
    Verdict.not_queued (rw (sym l, sym v) w) (p ∙ u, q ∙ v)
Verdict-carried fs s b m a (i, j, l) (u, v) (Verdict.of_no_finding w e (p, q)) =
    Verdict.of_no_finding (rw (sym l, sym v) w) (rw (sym j) e) (p ∙ u, q ∙ v)
Verdict-carried fs s b m a (i, j, l) (u, v) (Verdict.found f w e r p q) =
    Verdict.found f (rw (sym l, sym v) w) (rw (sym j) e) r p (q ∙ u)
Verdict-carried fs s b m a (i, j, l) (u, v) (Verdict.not_found f w e r p q) =
    Verdict.not_found f (rw (sym l, sym v) w) (rw (sym j) e) r p q

verified-IsNew :
    (db : Db) (s : Scan) (now : ℕ) (ms : List Remediation)
    → All IsNew ms
    → All IsNew (each_verified db s now ms)
unfolding each_verified verify_remediation
verified-IsNew db s now [] all = tt
verified-IsNew db s now (m ∷ ms) ((p, q), all) = (
  if_elim IsNew (waits_for s.repo_id m)
      (λ w. absurd (ground (arith, w, ap is_verification_queued q))) (λ w. (p, q)),
  verified-IsNew db s now ms all,
)

verified-Verdict :
    (db : Db) (s : Scan) (now : ℕ) (bs ms : List Remediation)
    → Continues IsUnmoved bs ms
    → Continues (Verdict db.findings s) bs (each_verified db s now ms)
unfolding each_verified
verified-Verdict db s now [] ms c = verified-IsNew db s now ms c
verified-Verdict db s now (b ∷ bs) [] c = absurd c
verified-Verdict db s now (b ∷ bs) (m ∷ ms) ((i, j, l), same, c) =
    let ((i', j', l'), verdict) = verify_remediation-Verdict db s now m in
    (
      (i' ∙ i, j' ∙ j, l' ∙ l),
      Verdict-carried db.findings s b m (verify_remediation db s now m) (i, j, l) same verdict,
      verified-Verdict db s now bs ms c,
    )

finish_decides :
    (o : Option Db) (s : Scan) (now : ℕ) (db : Db)
    → OfSome (Extends db) o
    → (finish_analysis o s now db).1 ≡ true
    → Continues (Verdict db.findings s) db.remediations (finish_analysis o s now db).0.remediations
unfolding finish_analysis set_analysis verify_remediations
finish_decides none s now db k e = absurd (cc e)
finish_decides (some d) s now db (same, k) e =
    subst (λ fs. Continues (Verdict fs s) db.remediations (each_verified d s now d.remediations))
      same (verified-Verdict d s now db.remediations d.remediations k)

-- After a `CompleteAnalysis` that commits, the remediations are those before, in their order, and then
-- new ones, `proposed` and `not_run`. A row that was queued for verification in the scan's repository,
-- and whose finding is stored, is `still_present`, its status kept, when the scan has a finding with that
-- finding's fingerprint, else `verified_fixed` and `resolved`. Every other row keeps its status and
-- its verification status.
pub analysis_decides :
    (s : Scan) (paths : List AttackPath) (evidence : List Evidence)
    (remediations : List Remediation) (now : ℕ) (db : Db)
    → (complete_analysis s paths evidence remediations now db).1 ≡ true
    → Continues
        (Verdict db.findings s)
        db.remediations
        (complete_analysis s paths evidence remediations now db).0.remediations
unfolding complete_analysis
analysis_decides s paths evidence remediations now db e =
    let with_paths =
      put_all-Extends (λ p. put_path (path_of s now p)) (λ p. put_path-Extends (path_of s now p))
        paths db in
    let with_evidence =
      and_put-Extends (λ g. put_evidence (evidence_of s now g))
        (λ g. put_evidence-Extends (evidence_of s now g)) evidence db _ with_paths in
    finish_decides _ s now db
      (and_put-Extends (λ m. put_remediation (remediation_of s m) now)
        (λ m. put_remediation-Extends now (remediation_of s m)) remediations db _ with_evidence)
      e
