-- ===== src/Platform/Queue.antt =====
-- The order of the queue of scans, over runs of all the processes.
use flyto_warroom.Prelude.{
  ℕ, suc, ◌-◌, ◌≤◌, ◌<◌, ◌≡◌, ◌⊎◌, refl, sym, String, Bool, true, false, Option, none, some, List,
  [], ◌∷◌, ◌++◌, arith, All, any, select, str_eq, eq_iff, ◌&&◌, leb, get_elem?, Bool-cases, inl,
  inr,
}
use mathlib.Core.Path.{subst}
use mathlib.Core.List.{Memᴰ}
use flyto_warroom.Platform.{Db, Scan, ScanStatus, running, complete, failed, StageStatus}
use flyto_warroom.Platform.Tables.{
  update, earliest, or_earlier, earliest-mem, earliest-some, count, count-append, count-update-le,
  count-update-lt, count-select-le, count-none,
}
use flyto_warroom.Platform.Scans.{
  new_scan, is_queued, active_scan_of, claim, claim_scan, set_last_scan, complete_scan, completed,
  finish_scan, fail_scan, insert_findings, map_of_scan,
}
use flyto_warroom.Platform.Stages.{
  claim_for, set_analysis, set_report, awaits_analysis, awaits_report, completed_first,
  claim_analysis, claim_report, complete_analysis, finish_analysis, verify_remediations,
  fail_analysis, complete_report, finish_report, fail_report, put_report, put_path, put_evidence,
  put_remediation, put_all, and_put,
}
use flyto_warroom.Platform.Stages.{path_of, evidence_of, remediation_of, report_of}
use flyto_warroom.Platform.Growth.{create-keeps, verify-keeps, enqueue-keeps}
use flyto_warroom.Platform.Inserts.{scan_rows, analysis_rows, report_rows}
use flyto_warroom.Platform.Workers.{
  System, Op, op_create, op_verify, op_enqueue, op_delete_repository, op_claim_scan,
  op_complete_scan, op_fail_scan, op_claim_analysis, op_complete_analysis, op_fail_analysis,
  op_claim_report, op_complete_report, op_fail_report, step, run, on_db, end_scan, end_analysis,
  end_report, or_failed_analysis, or_failed_report, delete_repository_rows,
}

-- Queued, and created at the instant or before.
abbrev pub waiting : ℕ → Scan → Bool
waiting t s = is_queued s.status && leb s.created_at t

abbrev pub waiting_count : ℕ → List Scan → ℕ
waiting_count t scans = count (waiting t) scans

abbrev by : ℕ → Option Scan → Bool
by t none = false
by t (some s) = leb s.created_at t

or_earlier-by :
    (t : ℕ) (x : Scan) (o : Option Scan)
    → (leb x.created_at t ≡ true) ⊎ (by t o ≡ true)
    → leb (or_earlier (λ s u. leb s.created_at u.created_at) x o).created_at t ≡ true
unfolding or_earlier
or_earlier-by t x none h = ground arith
or_earlier-by t x (some y) h = ground arith

-- The oldest queued scan is no younger than any that waits.
oldest-by :
    (t : ℕ) (xs : List Scan)
    → any (waiting t) xs ≡ true
    → by t (earliest (λ s. is_queued s.status) (λ s u. leb s.created_at u.created_at) xs) ≡ true
unfolding earliest any
oldest-by t [] h = absurd (cc h)
oldest-by t (x ∷ xs) h =
    let o = earliest (λ s. is_queued s.status) (λ s u. leb s.created_at u.created_at) xs in
    ground (arith, oldest-by t xs, or_earlier-by t x o)

-- A claim takes one of the scans that wait, where there is one.
taken :
    (t now : ℕ) (db : Db) (o : Option Scan)
    → ((s : Scan) → o ≡ some s → Memᴰ s db.scans × (is_queued s.status ≡ true))
    → (any (waiting t) db.scans ≡ true → by t o ≡ true)
    → waiting_count t (claim o now db).0.scans ≤ waiting_count t db.scans - 1
unfolding claim set_last_scan
taken t now db none found least = elim (Bool-cases (any (waiting t) db.scans)) [
  | inl e ↦ absurd (cc (least e))
  | inr e ↦ omega (arith, count-none (waiting t) db.scans e)
]
taken t now db (some s) found least =
    let start : Scan → Scan = λ x. record x { status = running; started_at = some now } in
    elim (Bool-cases (any (waiting t) db.scans)) [
      | inl e ↦
          let (m, q) = found s refl in
          let fewer =
            count-update-lt (waiting t) (λ x. str_eq x.id s.id) start db.scans s m
              (ground (arith, least e)) ((eq_iff s.id s.id).1 refl) (λ y. refl) in
          omega (arith, fewer)
      | inr e ↦
          let fewer =
            count-update-le (waiting t) (λ x. str_eq x.id s.id) start db.scans
              (All_gone t now db.scans) in
          omega (arith, fewer, count-none (waiting t) db.scans e)
    ]
  where
    All_gone :
        (t now : ℕ) (zs : List Scan)
        → All
            (λ z.
              str_eq z.id s.id ≡ true
              → waiting t (record z { status = running; started_at = some now }) ≡ true
              → waiting t z ≡ true)
            zs
    All_gone t now [] = tt
    All_gone t now (z ∷ zs) = (λ a b. absurd (cc b), All_gone t now zs)

claim-waiting :
    (t now : ℕ) (db : Db)
    → waiting_count t (claim_scan now db).0.scans ≤ waiting_count t db.scans - 1
unfolding claim_scan
claim-waiting t now db =
    let o = earliest (λ s. is_queued s.status) (λ s u. leb s.created_at u.created_at) db.scans in
    taken t now db o
      (λ s e.
        (earliest-mem _ _ db.scans s e, earliest-some (λ s. is_queued s.status) _ db.scans s e))
      (oldest-by t db.scans)

-- Updates that queue nothing.
module _ (t n : ℕ) where
  abbrev Few : List Scan → Type 0
  Few xs = waiting_count t xs ≤ n

  update-Few :
      (p : Scan → Bool) (f : Scan → Scan) (xs : List Scan)
      → ((x : Scan) → waiting t (f x) ≡ true → waiting t x ≡ true)
      → Few xs
      → Few (update p f xs)
  update-Few p f xs still few = omega (arith, few, count-update-le (waiting t) p f xs (all xs))
    where
      all :
          (zs : List Scan) → All (λ z. p z ≡ true → waiting t (f z) ≡ true → waiting t z ≡ true) zs
      all [] = tt
      all (z ∷ zs) = (λ a b. still z b, all zs)

  grow-Few :
      (now : ℕ)
      → t < now
      → (id project repo trigger : String) (xs : List Scan) → Unit {0}
      → any (λ x. str_eq x.id id) xs ≡ false
      → any (active_scan_of repo) xs ≡ false
      → Few xs
      → Few (xs ++ new_scan id project repo trigger now ∷ [])
  unfolding new_scan select
  grow-Few now later id project repo trigger xs ok fresh idle few =
      let s = new_scan id project repo trigger now in
      ground (arith, count-append (waiting t) xs (s ∷ []))

  finish-Few :
      (id : String) (st : ScanStatus) (message : String) (now : ℕ) (db : Db)
      → is_queued st ≡ false
      → Few db.scans
      → Few (finish_scan id st message now db).scans
  unfolding finish_scan
  finish-Few id st message now db ended few = update-Few _ _ db.scans (λ x h. ground arith) few

  completed-Few :
      (o : Option Db) (s : Scan) (now : ℕ) (db : Db)
      → ((db' : Db) → o ≡ some db' → db'.scans ≡ db.scans)
      → Few db.scans
      → Few (completed o s now db).0.scans
  unfolding completed
  completed-Few none s now db keeps few = few
  completed-Few (some db') s now db keeps few =
      finish-Few s.id complete "" now db' refl (subst Few (sym (keeps db' refl)) few)

  analysis-Few :
      (id : String) (st : StageStatus) (message : String) (db : Db)
      → Few db.scans
      → Few (set_analysis id st message db).scans
  unfolding set_analysis
  analysis-Few id st message db few = update-Few _ _ db.scans (λ x h. h) few

  report-Few :
      (id : String) (st : StageStatus) (message : String) (db : Db)
      → Few db.scans
      → Few (set_report id st message db).scans
  unfolding set_report
  report-Few id st message db few = update-Few _ _ db.scans (λ x h. h) few

  analysed-Few :
      (o : Option Db) (s : Scan) (now : ℕ) (db : Db)
      → ((db' : Db) → o ≡ some db' → db'.scans ≡ db.scans)
      → Few db.scans
      → Few (or_failed_analysis (finish_analysis o s now db) s).scans
  unfolding finish_analysis or_failed_analysis fail_analysis verify_remediations
  analysed-Few none s now db keeps few = analysis-Few s.id _ _ db few
  analysed-Few (some db') s now db keeps few =
      analysis-Few s.id _ _ (verify_remediations s now db') (subst Few (sym (keeps db' refl)) few)

  reported-Few :
      (o : Option Db) (s : Scan) (db : Db)
      → ((db' : Db) → o ≡ some db' → db'.scans ≡ db.scans)
      → Few db.scans
      → Few (or_failed_report (finish_report o s db) s).scans
  unfolding finish_report or_failed_report fail_report
  reported-Few none s db keeps few = report-Few s.id _ _ db few
  reported-Few (some db') s db keeps few =
      report-Few s.id _ _ db' (subst Few (sym (keeps db' refl)) few)

  claimed-Few :
      (o : Option Scan) (mark : String → Db → Db) (db : Db)
      → ((id : String) → Few (mark id db).scans)
      → Few db.scans
      → Few (claim_for o mark db).0.scans
  unfolding claim_for
  claimed-Few none mark db marked few = few
  claimed-Few (some s) mark db marked few = marked s.id

  ended_scan-Few :
      (o : Option Scan) (f : Scan → Db → Db) (k : ℕ) (sys : System)
      → ((s : Scan) → Few (f s sys.db).scans)
      → Few sys.db.scans
      → Few (end_scan o f k sys).db.scans
  unfolding end_scan
  ended_scan-Few none f k sys h few = few
  ended_scan-Few (some s) f k sys h few = h s

  ended_analysis-Few :
      (o : Option Scan) (f : Scan → Db → Db) (k : ℕ) (sys : System)
      → ((s : Scan) → Few (f s sys.db).scans)
      → Few sys.db.scans
      → Few (end_analysis o f k sys).db.scans
  unfolding end_analysis
  ended_analysis-Few none f k sys h few = few
  ended_analysis-Few (some s) f k sys h few = h s

  ended_report-Few :
      (o : Option Scan) (f : Scan → Db → Db) (k : ℕ) (sys : System)
      → ((s : Scan) → Few (f s sys.db).scans)
      → Few sys.db.scans
      → Few (end_report o f k sys).db.scans
  unfolding end_report
  ended_report-Few none f k sys h few = few
  ended_report-Few (some s) f k sys h few = h s

-- A step queues nothing that was created at the instant or before.
unfoldable pub IsLater : ℕ → Op → Type 0
IsLater t (op_create user repo id now) = t < now
IsLater t (op_verify user project m id now) = t < now
IsLater t (op_enqueue interval limit ids now) = t < now
IsLater t o = Unit

-- The claims of scans.
unfoldable pub claims : List Op → ℕ
claims [] = 0
claims (op_claim_scan now ∷ os) = suc (claims os)
claims (o ∷ os) = claims os

-- What a step leaves of so many.
left_after : Op → ℕ → ℕ
left_after (op_claim_scan now) n = n - 1
left_after o n = n

step-waiting :
    (t : ℕ) (o : Op) (sys : System)
    → IsLater t o
    → waiting_count t (step o sys).db.scans ≤ left_after o (waiting_count t sys.db.scans)
unfolding step on_db delete_repository_rows IsLater left_after complete_scan fail_scan
    complete_analysis complete_report fail_analysis fail_report claim_analysis claim_report
    set_last_scan
step-waiting t (op_create user repo id now) sys later =
    let n = waiting_count t sys.db.scans in
    create-keeps (Few t n) (λ i. Unit) now (grow-Few t n now later) user repo id sys.db tt
      (omega arith)
step-waiting t (op_verify user project m id now) sys later =
    let n = waiting_count t sys.db.scans in
    verify-keeps (Few t n) (λ i. Unit) now (grow-Few t n now later)
      (λ p trigger xs. update-Few t n p (λ s. record s { trigger_type = trigger }) xs (λ x h. h))
      user project m id sys.db tt (omega arith)
step-waiting t (op_enqueue interval limit ids now) sys later =
    let n = waiting_count t sys.db.scans in
    enqueue-keeps (Few t n) (λ i. Unit) now (grow-Few t n now later) interval limit ids sys.db
      (λ m. tt) (omega arith)
step-waiting t (op_delete_repository repo) sys later = count-select-le (waiting t) _ sys.db.scans
step-waiting t (op_claim_scan now) sys later = claim-waiting t now sys.db
step-waiting t (op_complete_scan k findings now) sys later =
    let n = waiting_count t sys.db.scans in
    ended_scan-Few t n (get_elem? sys.scanning k) _ k sys
      (λ s.
        completed-Few t n (insert_findings (map_of_scan s findings) sys.db) s now sys.db
          (scan_rows s findings sys.db) (omega arith))
      (omega arith)
step-waiting t (op_fail_scan k message now) sys later =
    let n = waiting_count t sys.db.scans in
    ended_scan-Few t n (get_elem? sys.scanning k) _ k sys
      (λ s. finish-Few t n s.id failed message now sys.db refl (omega arith)) (omega arith)
step-waiting t op_claim_analysis sys later =
    let n = waiting_count t sys.db.scans in
    claimed-Few t n (earliest awaits_analysis completed_first sys.db.scans) _ sys.db
      (λ id. analysis-Few t n id _ _ sys.db (omega arith)) (omega arith)
step-waiting t (op_complete_analysis k paths evidence remediations now) sys later =
    let n = waiting_count t sys.db.scans in
    ended_analysis-Few t n (get_elem? sys.analysing k) _ k sys
      (λ s.
        analysed-Few t n
          (and_put
            (and_put (put_all (λ p. put_path (path_of s now p)) paths sys.db)
              (λ g. put_evidence (evidence_of s now g)) evidence)
            (λ m. put_remediation (remediation_of s m) now) remediations)
          s now sys.db (analysis_rows s paths evidence remediations now sys.db) (omega arith))
      (omega arith)
step-waiting t (op_fail_analysis k message) sys later =
    let n = waiting_count t sys.db.scans in
    ended_analysis-Few t n (get_elem? sys.analysing k) _ k sys
      (λ s. analysis-Few t n s.id _ _ sys.db (omega arith)) (omega arith)
step-waiting t op_claim_report sys later =
    let n = waiting_count t sys.db.scans in
    claimed-Few t n (earliest awaits_report completed_first sys.db.scans) _ sys.db
      (λ id. report-Few t n id _ _ sys.db (omega arith)) (omega arith)
step-waiting t (op_complete_report k r) sys later =
    let n = waiting_count t sys.db.scans in
    ended_report-Few t n (get_elem? sys.reporting k) _ k sys
      (λ s.
        reported-Few t n (put_report (report_of s r) sys.db) s sys.db
          (report_rows (report_of s r) sys.db) (omega arith))
      (omega arith)
step-waiting t (op_fail_report k message) sys later =
    let n = waiting_count t sys.db.scans in
    ended_report-Few t n (get_elem? sys.reporting k) _ k sys
      (λ s. report-Few t n s.id _ _ sys.db (omega arith)) (omega arith)

claims-left_after :
    (o : Op) (os : List Op) (n : ℕ) → left_after o n - claims os ≡ n - claims (o ∷ os)
unfolding claims left_after
claims-left_after o os n = ground arith

run-waiting :
    (t : ℕ) (os : List Op) (sys : System)
    → All (IsLater t) os
    → waiting_count t (run os sys).db.scans ≤ waiting_count t sys.db.scans - claims os
unfolding run claims
run-waiting t [] sys later = omega arith
run-waiting t (o ∷ os) sys (l, later) = omega (
  arith,
  run-waiting t os (step o sys) later,
  step-waiting t o sys l,
  claims-left_after o os (waiting_count t sys.db.scans),
)

-- Over any run of the processes in which the scans that are made meanwhile are younger than the instant
-- `t`, and in which the workers claim at least as often as there were scans queued up to `t` at first, no
-- scan that was created up to `t` is left queued.
pub served_in_turn :
    (t : ℕ) (os : List Op) (sys : System)
    → All (IsLater t) os
    → waiting_count t sys.db.scans ≤ claims os
    → waiting_count t (run os sys).db.scans ≡ 0
served_in_turn t os sys later enough = omega (arith, run-waiting t os sys later)
