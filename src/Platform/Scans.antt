-- ===== src/Platform/Scans.antt =====
-- store.go and workflow.go: the queue of scans. A repository's scan is queued, claimed by a worker, and
-- completed or failed by the worker that claimed it.
use flyto_warroom.Prelude.{
  ℕ, ◌+◌, ◌-◌, ◌*◌, String, Bool, true, false, not, ◌&&◌, ◌||◌, Option, none, some, List, [], ◌∷◌,
  ◌++◌, any, select, length, leb, ltb, if◌then◌else◌, str_eq,
}
use flyto_warroom.Platform.{
  Db, Scan, Repository, Finding, ScanStatus, queued, running, complete, failed, stage_pending,
  StoreError, err_not_found, err_constraint, minute, day,
}
use flyto_warroom.Platform.Tables.{first, earliest, update, sort_by, take, nulls_first}

abbrev pub is_queued : ScanStatus → Bool
is_queued queued = true
is_queued _ = false

-- `status IN ('queued','running')`
abbrev pub is_active : ScanStatus → Bool
is_active queued = true
is_active running = true
is_active _ = false

unfoldable pub owns : Db → (user project : String) → Bool
owns db user project = any (λ p. str_eq p.id project && str_eq p.owner_user_id user) db.projects

-- `Repository`: joined with a project of the user's.
unfoldable pub repository : Db → (user repo : String) → Option Repository
unfolding owns
repository db user repo = first (λ r. str_eq r.id repo && owns db user r.project_id) db.repositories

abbrev pub active_scan_of : String → Scan → Bool
active_scan_of repo s = str_eq s.repo_id repo && is_active s.status

-- `ce_scans_one_active_per_repo_idx`
unfoldable pub has_active : Db → String → Bool
has_active db repo = any (active_scan_of repo) db.scans

-- `ORDER BY created_at DESC LIMIT 1`, of rows of which the index allows one.
unfoldable pub active_scan : Db → String → Option Scan
active_scan db repo = first (active_scan_of repo) db.scans

unfoldable pub new_scan : (id : String) → (project repo trigger : String) → ℕ → Scan
new_scan id project repo trigger now = record {
  id = id;
  project_id = project;
  repo_id = repo;
  status = queued;
  analysis_status = stage_pending;
  report_status = stage_pending;
  trigger_type = trigger;
  error = "";
  analysis_error = "";
  report_error = "";
  started_at = none;
  completed_at = none;
  created_at = now;
}

-- `INSERT INTO ce_scans`, for a repository of the project: the primary key and the index on active scans.
unfoldable pub insert_scan : Scan → Db → Option Db
unfolding has_active
insert_scan s db =
    if any (λ t. str_eq t.id s.id) db.scans || is_active s.status && has_active db s.repo_id
    then none
    else some (record db { scans = db.scans ++ s ∷ [] })

unfoldable pub set_last_scan : (repo status message : String) → Db → Db
set_last_scan repo status message db = record db {
  repositories =
      update (λ r. str_eq r.id repo)
        (λ r. record r { last_scan_status = status; last_scan_error = message }) db.repositories;
}

-- What `CreateScan` returns.
pub data Created : Type 0 where
  created : Scan → Created
  not_created : StoreError → Created

unfoldable pub created_scan : Option Db → Scan → Db → Db × Created
unfolding set_last_scan
created_scan none s db = (db, not_created err_constraint)
created_scan (some db') s db = (set_last_scan s.repo_id "queued" "" db', created s)

unfoldable pub create_for : Option Scan → Repository → (id : String) → ℕ → Db → Db × Created
unfolding created_scan insert_scan new_scan
create_for (some active) r id now db = (db, created active)
create_for none r id now db =
    let s = new_scan id r.project_id r.id "manual" now in created_scan (insert_scan s db) s db

-- `CreateScan`, where no other session inserts between its statements.
unfoldable pub create_scan : (user repo id : String) → ℕ → Db → Db × Created
unfolding create_for repository active_scan
create_scan user repo id now db = elim (repository db user repo) [
  | none ↦ (db, not_created err_not_found)
  | some r ↦ create_for (active_scan db repo) r id now db
]

-- `ClaimScan`: the oldest queued scan, which is then running.
unfoldable pub claim : Option Scan → ℕ → Db → Db × Option Scan
unfolding set_last_scan
claim none now db = (db, none)
claim (some s) now db =
    let start = λ (t : Scan). record t { status = running; started_at = some now } in
    (
      set_last_scan s.repo_id "running" ""
          (record db { scans = update (λ t. str_eq t.id s.id) start db.scans }),
      some (start s),
    )

unfoldable pub claim_scan : ℕ → Db → Db × Option Scan
unfolding claim
claim_scan now db =
    claim (earliest (λ s. is_queued s.status) (λ s t. leb s.created_at t.created_at) db.scans) now
      db

-- `INSERT INTO ce_findings ... ON CONFLICT(scan_id,fingerprint) DO NOTHING`; the scan must be there.
unfoldable pub insert_finding : Finding → Db → Option Db
insert_finding f db =
    if any (λ g. str_eq g.scan_id f.scan_id && str_eq g.fingerprint f.fingerprint) db.findings
    then some db
    else if any (λ g. str_eq g.id f.id) db.findings
        || not (any (λ s. str_eq s.id f.scan_id) db.scans)
    then none
    else some (record db { findings = db.findings ++ f ∷ [] })

unfoldable pub insert_findings : List Finding → Db → Option Db
unfolding insert_finding
insert_findings [] db = some db
insert_findings (f ∷ fs) db = elim (insert_finding f db) [
  | none ↦ none
  | some db' ↦ insert_findings fs db'
]

-- The rows carry the scan that they are reported for.
abbrev pub of_scan : Scan → Finding → Finding
of_scan s f = record f { scan_id = s.id; project_id = s.project_id; repo_id = s.repo_id }

unfoldable pub map_of_scan : Scan → List Finding → List Finding
map_of_scan s [] = []
map_of_scan s (f ∷ fs) = of_scan s f ∷ map_of_scan s fs

unfoldable pub finish_scan : (id : String) → ScanStatus → (message : String) → ℕ → Db → Db
finish_scan id status message now db = record db {
  scans =
      update (λ t. str_eq t.id id)
        (λ t. record t { status = status; completed_at = some now; error = message }) db.scans;
}

unfoldable pub completed : Option Db → Scan → ℕ → Db → Db × Bool
unfolding finish_scan
completed none s now db = (db, false)
completed (some db') s now db =
    let db'' = finish_scan s.id complete "" now db' in
    (
      record db'' {
        repositories =
            update (λ r. str_eq r.id s.repo_id)
              (λ r. record r {
                last_scan_status = "complete";
                last_scan_error = "";
                last_scanned_at = some now;
              })
              db''.repositories;
      },
      true,
    )

-- `CompleteScan`: one transaction; says whether it was committed.
unfoldable pub complete_scan : Scan → List Finding → ℕ → Db → Db × Bool
unfolding completed insert_findings map_of_scan
complete_scan s findings now db = completed (insert_findings (map_of_scan s findings) db) s now db

-- `FailScan`; the message is the bounded one.
unfoldable pub fail_scan : Scan → (message : String) → ℕ → Db → Db
unfolding finish_scan set_last_scan
fail_scan s message now db =
    set_last_scan s.repo_id "failed" message (finish_scan s.id failed message now db)

-- `EnqueueDueAutoScans`: at most `limit` repositories, with fresh identifiers for their scans.
abbrev pub scanned_before : Option ℕ → ℕ → Bool
scanned_before none cutoff = true
scanned_before (some t) cutoff = leb t cutoff

unfoldable pub is_due : Db → (cutoff : ℕ) → Repository → Bool
unfolding has_active
is_due db cutoff r =
    r.auto_scan && scanned_before r.last_scanned_at cutoff && not (has_active db r.id)

unfoldable pub due_repositories : Db → (cutoff limit : ℕ) → List Repository
unfolding is_due
due_repositories db cutoff limit = take limit (
    sort_by (λ r q. nulls_first r.last_scanned_at r.created_at q.last_scanned_at q.created_at)
      (select (is_due db cutoff) db.repositories))

unfoldable pub enqueue_each : List Repository → (ids : ℕ → String) → (n now : ℕ) → Db → Option Db
unfolding insert_scan new_scan set_last_scan
enqueue_each [] ids n now db = some db
enqueue_each (r ∷ rs) ids n now db =
    elim (insert_scan (new_scan (ids n) r.project_id r.id "scheduled" now) db) [
      | none ↦ none
      | some db' ↦ enqueue_each rs ids (n + 1) now (set_last_scan r.id "queued" "" db')
    ]

unfoldable pub bounded_interval : ℕ → ℕ
bounded_interval interval = if ltb interval (15 * minute) then day else interval

unfoldable pub bounded_limit : ℕ → ℕ
bounded_limit limit = if ltb limit 1 || ltb 100 limit then 25 else limit

unfoldable pub or_unchanged : Option Db → List Repository → Db → Db × Option ℕ
or_unchanged none due db = (db, none)
or_unchanged (some db') due db = (db', some (length due))

-- One transaction: the count is that of the scans that were queued, or none after an error.
unfoldable pub enqueue_due : (interval limit : ℕ) → (ids : ℕ → String) → ℕ → Db → Db × Option ℕ
unfolding or_unchanged due_repositories enqueue_each bounded_interval bounded_limit
enqueue_due interval limit ids now db =
    let due = due_repositories db (now - bounded_interval interval) (bounded_limit limit) in
    or_unchanged (enqueue_each due ids 0 now db) due db
