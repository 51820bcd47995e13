-- ===== src/Platform/Projects.antt =====
-- store.go: users and projects. A user sees the projects that they own.
use flyto_warroom.Prelude.{
  ℕ, ◌==◌, String, Bool, true, not, ◌&&◌, ◌||◌, Option, none, some, List, [], ◌∷◌, ◌++◌, any,
  select, leb, if◌then◌else◌, str_eq, to_lower, trim_space,
}
use flyto_warroom.Platform.{
  Db, User, Project, StoreError, err_not_found, err_bootstrap_closed, err_conflict,
  err_invalid_input, err_constraint,
}
use flyto_warroom.Platform.Tables.{first, update, delete, sort_by, count}

-- A result and an error.
pub data Answer {ℓ} (A : Type ℓ) : Type ℓ where
  answer : A → Answer A
  refuse : StoreError → Answer A

-- `Project` of models.go.
pub record ProjectView : Type 0 where
  pub project : Project
  pub repo_count : ℕ
  pub member_count : ℕ
  pub role : String
  pub is_admin : Bool

unfoldable pub bootstrap_open : Db → Bool
bootstrap_open db = count (λ u. true) db.users == 0

-- `INSERT INTO ce_users`: the primary key and the index on the address.
unfoldable pub insert_user : User → Db → Option Db
insert_user u db =
    if any (λ v. str_eq v.id u.id) db.users
      || any (λ v. str_eq (to_lower v.email) (to_lower u.email)) db.users
    then none
    else some (record db { users = db.users ++ u ∷ [] })

-- `INSERT INTO ce_projects`: the primary key, the owner and `UNIQUE(owner_user_id, slug)`.
unfoldable pub insert_project : Project → Db → Option Db
insert_project p db =
    if any (λ q. str_eq q.id p.id) db.projects
      || (not (any (λ u. str_eq u.id p.owner_user_id) db.users)
          || any (λ q. str_eq q.owner_user_id p.owner_user_id && str_eq q.slug p.slug) db.projects)
    then none
    else some (record db { projects = db.projects ++ p ∷ [] })

abbrev pub seen_by_owner : (repo_count : ℕ) → Project → ProjectView
seen_by_owner n p = record {
  project = p;
  repo_count = n;
  member_count = 1;
  role = "owner";
  is_admin = true;
}

abbrev pub first_user : (id email display_name password_hash : String) → ℕ → User
first_user id email display_name password_hash now = record {
  id = id;
  email = to_lower (trim_space email);
  display_name = trim_space display_name;
  password_hash = password_hash;
  created_at = now;
}

abbrev pub first_project : (id user : String) → ℕ → Project
first_project id user now = record {
  id = id;
  owner_user_id = user;
  name = "My Warroom";
  slug = "my-warroom";
  description = "Community security workspace";
  project_type = "all";
  created_at = now;
}

-- A statement of a transaction, and the rest of it.
abbrev pub and_then {ℓ} : {A : Type ℓ} → Option Db → (Db → Option A) → Option A
and_then none f = none
and_then (some db) f = f db

abbrev pub or_rolled_back {ℓ} : {A : Type ℓ} → Db → StoreError → Option (Db × A) → Db × Answer A
or_rolled_back db e none = (db, refuse e)
or_rolled_back db e (some (after, a)) = (after, answer a)

unfoldable pub bootstrap :
    (email display_name password_hash : String) (user_id project_id : String) (now : ℕ)
    → Db
    → Db × Answer (User × ProjectView)
unfolding bootstrap_open insert_user insert_project
bootstrap email display_name password_hash user_id project_id now db =
    let user = first_user user_id email display_name password_hash now in
    let project = first_project project_id user_id now in
    if not (bootstrap_open db)
    then (db, refuse err_bootstrap_closed)
    else or_rolled_back db err_constraint (
        and_then (insert_user user db) (λ one.
          and_then (insert_project project one)
            (λ two. some (two, (user, seen_by_owner 0 project)))))

abbrev pub found {ℓ} : {A : Type ℓ} → Option A → Answer A
found none = refuse err_not_found
found (some a) = answer a

unfoldable pub user_by_email : Db → (email : String) → Answer User
unfolding first
user_by_email db email =
    found (first (λ u. str_eq (to_lower u.email) (to_lower (trim_space email))) db.users)

unfoldable pub user_by_id : Db → (id : String) → Answer User
unfolding first
user_by_id db id = found (first (λ u. str_eq u.id id) db.users)

unfoldable pub repo_count_of : Db → (project : String) → ℕ
unfolding select
repo_count_of db id = count (λ r. str_eq r.project_id id) db.repositories

-- `WHERE owner_user_id=$1`
abbrev pub is_owner : (user : String) → Project → Bool
is_owner user p = str_eq p.owner_user_id user

unfoldable pub see_all : Db → List Project → List ProjectView
unfolding repo_count_of
see_all db [] = []
see_all db (p ∷ ps) = seen_by_owner (repo_count_of db p.id) p ∷ see_all db ps

unfoldable pub list_projects : Db → (user : String) → List ProjectView
unfolding sort_by select see_all
list_projects db user =
    see_all db (sort_by (λ p q. leb p.created_at q.created_at) (select (is_owner user) db.projects))

-- `WHERE id=$3 AND owner_user_id=$4`
abbrev pub is_owned : (user id : String) → Project → Bool
is_owned user id p = str_eq p.id id && str_eq p.owner_user_id user

unfoldable pub view_of : Db → Option Project → Option ProjectView
unfolding repo_count_of
view_of db none = none
view_of db (some p) = some (seen_by_owner (repo_count_of db p.id) p)

unfoldable pub project : Db → (user id : String) → Answer ProjectView
unfolding first view_of
project db user id = found (view_of db (first (is_owned user id) db.projects))

abbrev pub new_project : (id user name slug project_type : String) → ℕ → Project
new_project id user name slug project_type now = record {
  id = id;
  owner_user_id = user;
  name = trim_space name;
  slug = to_lower (trim_space slug);
  description = "";
  project_type = if str_eq project_type "" then "all" else project_type;
  created_at = now;
}

-- A violated unique constraint is reported before a missing owner, and by its name.
abbrev pub created_project : Db → Project → Option Db → Db × Answer ProjectView
created_project db p (some after) = (after, answer (seen_by_owner 0 p))
created_project db p none = (
  db,
  refuse (
      if any (λ q. str_eq q.id p.id) db.projects
        || any (λ q. str_eq q.owner_user_id p.owner_user_id && str_eq q.slug p.slug) db.projects
      then err_conflict
      else err_constraint),
)

unfoldable pub create_project :
    (user name slug project_type : String) (id : String) (now : ℕ) → Db → Db × Answer ProjectView
unfolding insert_project any
create_project user name slug project_type id now db =
    let p = new_project id user name slug project_type now in
    created_project db p (insert_project p db)

-- `UNIQUE(owner_user_id, slug)` where the project that is updated has another row's slug.
abbrev pub takes_slug : Db → (user id slug : String) → Bool
takes_slug db user id slug =
    any (is_owned user id) db.projects
    && any (λ q. str_eq q.owner_user_id user && (str_eq q.slug slug && not (str_eq q.id id)))
        db.projects

abbrev pub renamed : (name slug : String) → Project → Project
renamed name slug p = record p { name = name; slug = slug }

unfoldable pub updated_project : (user id : String) → (before after : Db) → Db × Answer ProjectView
unfolding any project
updated_project user id before after =
    if any (is_owned user id) before.projects
    then (after, project after user id)
    else (before, refuse err_not_found)

unfoldable pub update_project : (user id name slug : String) → Db → Db × Answer ProjectView
unfolding updated_project update
update_project user id name slug db =
    let new_slug = to_lower (trim_space slug) in
    if str_eq (trim_space name) "" || str_eq (trim_space slug) ""
    then (db, refuse err_invalid_input)
    else if takes_slug db user id new_slug
    then (db, refuse err_constraint)
    else updated_project user id db (record db {
      projects = update (is_owned user id) (renamed (trim_space name) new_slug) db.projects;
    })

abbrev pub in_project : Db → (project repo : String) → Bool
in_project db project repo =
    any (λ r. str_eq r.id repo && str_eq r.project_id project) db.repositories

-- `ON DELETE CASCADE`, from the project to its repositories and all rows of either.
unfoldable pub delete_project_rows : (user id : String) → Db → Db
unfolding any select
delete_project_rows user id db = record db {
  projects = delete (is_owned user id) db.projects;
  repositories = delete (λ r. str_eq r.project_id id) db.repositories;
  scans = delete (λ s. str_eq s.project_id id || in_project db id s.repo_id) db.scans;
  findings = delete (λ f. str_eq f.project_id id || in_project db id f.repo_id) db.findings;
  attack_paths = delete (λ a. str_eq a.project_id id || in_project db id a.repo_id) db.attack_paths;
  evidence = delete (λ e. str_eq e.project_id id || in_project db id e.repo_id) db.evidence;
  remediations = delete (λ m. str_eq m.project_id id || in_project db id m.repo_id) db.remediations;
  reports =
      delete
        (λ q.
          str_eq q.project_id id
          || any
              (λ s. str_eq s.id q.scan_id && (str_eq s.project_id id || in_project db id s.repo_id))
              db.scans)
        db.reports;
}

unfoldable pub delete_project : (user id : String) → Db → Db × Option StoreError
unfolding delete_project_rows any
delete_project user id db =
    if any (is_owned user id) db.projects
    then (delete_project_rows user id db, none)
    else (db, some err_not_found)
