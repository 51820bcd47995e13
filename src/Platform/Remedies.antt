-- ===== src/Platform/Remedies.antt =====
-- workflow.go: `QueueRemediationVerification`. Three statements that are no transaction: the scan that
-- `CreateScan` makes or finds, the remediation, and the scan's trigger.
use flyto_warroom.Prelude.{ℕ, String, ◌&&◌, none, some, str_eq}
use flyto_warroom.Platform.{Db, accepted, verification_queued, err_not_found}
use flyto_warroom.Platform.Tables.{first, update}
use flyto_warroom.Platform.Scans.{Created, created, not_created, create_scan, owns, is_queued}

unfoldable pub accept : (id : String) → ℕ → Db → Db
accept id now db = record db {
  remediations =
      update (λ m. str_eq m.id id)
        (λ m. record m {
          status = accepted;
          verification_status = verification_queued;
          updated_at = now;
        })
        db.remediations;
}

unfoldable pub set_trigger : (scan trigger : String) → Db → Db
set_trigger scan trigger db = record db {
  scans =
      update (λ s. str_eq s.id scan && is_queued s.status)
        (λ s. record s { trigger_type = trigger }) db.scans;
}

unfoldable pub after_create : Db × Created → (remediation : String) → ℕ → Db × Created
unfolding accept set_trigger
after_create (db, not_created e) remediation now = (db, not_created e)
after_create (db, created s) remediation now = (
  set_trigger s.id "verification" (accept remediation now db),
  created (record s { trigger_type = "verification" }),
)

unfoldable pub queue_verification :
    (user project remediation scan_id : String) → ℕ → Db → Db × Created
unfolding after_create create_scan owns
queue_verification user project remediation scan_id now db =
    elim (first
      (λ m. str_eq m.id remediation && (str_eq m.project_id project && owns db user project))
      db.remediations) [
        | none ↦ (db, not_created err_not_found)
        | some m ↦ after_create (create_scan user m.repo_id scan_id now db) remediation now
      ]
