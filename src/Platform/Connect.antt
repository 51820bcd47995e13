-- ===== src/Platform/Connect.antt =====
-- store.go: the repositories of a project. Only the parser of URLs is a parameter.
use flyto_warroom.Prelude.{
  ℕ, String, Bool, true, false, not, ◌&&◌, ◌||◌, Option, none, some, List, [], ◌∷◌, ◌++◌, any,
  if◌then◌else◌, str_eq, to_lower, trim_space,
}
use flyto_warroom.Platform.{
  Db, Repository, StoreError, err_not_found, err_conflict, err_invalid_input, err_constraint,
}
use flyto_warroom.Platform.Scans.{repository}
use flyto_warroom.Platform.Workers.{delete_repository_rows}
use flyto_warroom.Platform.Projects.{Answer, answer, refuse, is_owned}

-- What is read of a `url.URL`; `has_user` is `u.User != nil`.
pub record Url : Type 0 where
  pub scheme : String
  pub has_user : Bool
  pub hostname : String
  pub path : String

abbrev pub allowed_hosts : List String
allowed_hosts = "github.com" ∷ "gitlab.com" ∷ "codeberg.org" ∷ "bitbucket.org" ∷ []

unfoldable pub is_public_url : Option Url → Bool
unfolding any
is_public_url none = false
is_public_url (some u) =
    if not (str_eq u.scheme "https") || u.has_user
    then false
    else if not (any (λ host. str_eq host (to_lower u.hostname)) allowed_hosts)
    then false
    else not (str_eq (trim_space u.path) "" || str_eq u.path "/")

-- `if x == "" { x = y }`
abbrev pub or_default : (value standard : String) → String
or_default value standard = if str_eq value "" then standard else value

-- The columns that the statement does not name have their defaults.
unfoldable pub connected : (id project : String) → ℕ → Repository → Repository
connected id project now r = record r {
  id = id;
  project_id = project;
  created_at = now;
  provider = or_default r.provider "git";
  provider_id = or_default r.provider_id r.full_name;
  default_branch = or_default r.default_branch "main";
  scan_mode = or_default r.scan_mode "cloud";
  auto_scan = true;
  last_scanned_at = none;
  last_scan_status = "";
  last_scan_error = "";
}

-- `INSERT INTO ce_repositories`: the primary key, the project and `UNIQUE(project_id, full_name)`.
unfoldable pub insert_repository : Repository → Db → Option Db
insert_repository r db =
    if any (λ q. str_eq q.id r.id) db.repositories
      || (not (any (λ p. str_eq p.id r.project_id) db.projects)
          || any (λ q. str_eq q.project_id r.project_id && str_eq q.full_name r.full_name)
              db.repositories)
    then none
    else some (record db { repositories = db.repositories ++ r ∷ [] })

-- A violated unique constraint is reported before a missing project, and by its name.
abbrev pub stored_repository : Db → Repository → Option Db → Db × Answer Repository
stored_repository db r (some after) = (after, answer r)
stored_repository db r none = (
  db,
  refuse (
      if any (λ q. str_eq q.id r.id) db.repositories
        || any (λ q. str_eq q.project_id r.project_id && str_eq q.full_name r.full_name)
            db.repositories
      then err_conflict
      else err_constraint),
)

module _ (parse_url : String → Option Url) where
  unfoldable pub validate_public_clone_url : (raw : String) → Option StoreError
  unfolding is_public_url
  validate_public_clone_url raw =
      if is_public_url (parse_url (trim_space raw)) then none else some err_invalid_input

  abbrev pub refused_or : Option StoreError → Db → Db × Answer Repository → Db × Answer Repository
  refused_or (some e) db next = (db, refuse e)
  refused_or none db next = next

  unfoldable pub connect_repository :
      (user project : String) → Repository → (id : String) → (now : ℕ) → Db → Db × Answer Repository
  unfolding validate_public_clone_url connected insert_repository any
  connect_repository user project repo id now db =
      let r = connected id project now repo in
      if not (any (is_owned user project) db.projects)
      then (db, refuse err_not_found)
      else refused_or (validate_public_clone_url repo.clone_url) db
          (stored_repository db r (insert_repository r db))

unfoldable pub deleted_repository :
    (repo : String) → Db → Option Repository → Db × Option StoreError
unfolding delete_repository_rows
deleted_repository repo db none = (db, some err_not_found)
deleted_repository repo db (some r) = (delete_repository_rows repo db, none)

unfoldable pub delete_repository : (user repo : String) → Db → Db × Option StoreError
unfolding deleted_repository repository
delete_repository user repo db = deleted_repository repo db (repository db user repo)
