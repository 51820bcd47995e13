-- ===== src/Platform/Safety.antt =====
-- What holds of the scans whatever the processes do: a property of the rows and of how often each
-- identifier is held by a worker.
pub mod Moves
pub mod Steps
pub mod Claims
pub mod Ends
pub mod Always
use flyto_warroom.Prelude.{
  ℕ, ◌+◌, ◌≤◌, ◌<◌, ◌≡◌, ◌≢◌, refl, sym, ap, ◌∙◌, String, Bool, true, false, Option, none, some,
  List, [], ◌∷◌, ◌++◌, arith, All, any, select, length, str_eq, eq_iff, if_elim,
}
use mathlib.Core.Path.{subst}
use mathlib.Core.List.{Memᴰ}
use flyto_warroom.Platform.{
  Db, Scan, ScanStatus, queued, running, complete, StageStatus, stage_pending, stage_running,
  stage_complete,
}
use flyto_warroom.Platform.Tables.{
  update, count, All-update, All-select, All-append, count-append, count-update-le, count-select-le,
  count-none,
}
use flyto_warroom.Platform.Scans.{active_scan_of, is_active}

-- No two rows have the same identifier.
unfoldable pub IsUnique : List Scan → Type 0
IsUnique [] = Unit
IsUnique (s ∷ ss) = All (λ t. t.id ≢ s.id) ss × IsUnique ss

-- A row, with how many workers hold it to scan, to analyse and to report.
pub record Fits (a b c : ℕ) (r : Scan) : Type 0 where
  pub one_scanner : a ≤ 1
  pub one_analyst : b ≤ 1
  pub one_reporter : c ≤ 1
  pub scanner_runs : 0 < a → r.status ≡ running
  pub analyst_runs : 0 < b → r.analysis_status ≡ stage_running
  pub reporter_runs : 0 < c → r.report_status ≡ stage_running
  pub analysed_after : r.analysis_status ≢ stage_pending → r.status ≡ complete
  pub reported_after : r.report_status ≢ stage_pending → r.analysis_status ≡ stage_complete

pub record IsSafe (a b c : String → ℕ) (scans : List Scan) : Type 0 where
  pub unique : IsUnique scans
  pub one_active : (repo : String) → count (active_scan_of repo) scans ≤ 1
  pub fits : All (λ r. Fits (a r.id) (b r.id) (c r.id) r) scans

-- In a table without repetition the row of an identifier is one.
pub unique_row :
    (xs : List Scan) (s : Scan) → IsUnique xs → Memᴰ s xs → All (λ x. x.id ≡ s.id → x ≡ s) xs
unfolding IsUnique
unique_row [] s u m = elim m [ ]
unique_row (x ∷ xs) s (d, u) (Memᴰ.head e) = (λ q. sym e, others xs d)
  where
    others : (ys : List Scan) → All (λ t. t.id ≢ x.id) ys → All (λ y. y.id ≡ s.id → y ≡ s) ys
    others [] all = tt
    others (y ∷ ys) (h, all) = (λ q. absurd (h (q ∙ ap (λ z. z.id) e)), others ys all)
unique_row (x ∷ xs) s (d, u) (Memᴰ.tail m) =
    (λ q. absurd (there xs d m (sym q)), unique_row xs s u m)
  where
    there : (ys : List Scan) → All (λ t. t.id ≢ x.id) ys → Memᴰ s ys → s.id ≢ x.id
    there [] all k = elim k [ ]
    there (y ∷ ys) (h, all) (Memᴰ.head e) = λ q. h (sym (ap (λ z. z.id) e) ∙ q)
    there (y ∷ ys) (h, all) (Memᴰ.tail k) = there ys all k
