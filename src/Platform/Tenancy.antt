-- ===== src/Platform/Tenancy.antt =====
-- The requests of users on their projects and repositories, in any order.
use flyto_warroom.Prelude.{
  ℕ, ◌≡◌, ◌≢◌, refl, ap, ◌∙◌, String, not, Option, List, [], ◌∷◌, ◌++◌, arith, All, select, eq_iff,
  trim_space, to_lower,
}
use flyto_warroom.Platform.{Db, Project, Repository}
use flyto_warroom.Platform.Tables.{update}
use flyto_warroom.Platform.Workers.{delete_repository_rows}
use flyto_warroom.Platform.Projects.{
  bootstrap, create_project, update_project, delete_project, delete_project_rows, insert_project,
  insert_user, is_owner, is_owned, renamed, new_project, updated_project, first_project,
}
use flyto_warroom.Platform.Connect.{
  Url, connect_repository, delete_repository, insert_repository, deleted_repository,
}

-- A request with the identifiers and the time that it takes.
pub data Request : Type 0 where
  req_bootstrap : (email display_name password_hash user_id project_id : String) → ℕ → Request
  req_create : (user name slug project_type id : String) → ℕ → Request
  req_update : (user id name slug : String) → Request
  req_delete : (user id : String) → Request
  req_connect : (user project : String) → Repository → (id : String) → ℕ → Request
  req_disconnect : (user repo : String) → Request

abbrev pub actor : Request → String
actor (req_bootstrap email display_name password_hash user_id project_id now) = user_id
actor (req_create user name slug project_type id now) = user
actor (req_update user id name slug) = user
actor (req_delete user id) = user
actor (req_connect user project repo id now) = user
actor (req_disconnect user repo) = user

module _ (parse_url : String → Option Url) where
  unfoldable pub serve : Request → Db → Db
  unfolding bootstrap create_project update_project delete_project connect_repository
      delete_repository
  serve (req_bootstrap email display_name password_hash user_id project_id now) db =
      (bootstrap email display_name password_hash user_id project_id now db).0
  serve (req_create user name slug project_type id now) db =
      (create_project user name slug project_type id now db).0
  serve (req_update user id name slug) db = (update_project user id name slug db).0
  serve (req_delete user id) db = (delete_project user id db).0
  serve (req_connect user project repo id now) db =
      (connect_repository parse_url user project repo id now db).0
  serve (req_disconnect user repo) db = (delete_repository user repo db).0

  unfoldable pub serve_all : List Request → Db → Db
  unfolding serve
  serve_all [] db = db
  serve_all (q ∷ qs) db = serve_all qs (serve q db)

-- The projects of a user.
abbrev pub projects_of : String → List Project → List Project
unfolding select
projects_of user ps = select (is_owner user) ps

projects_of-append :
    (user : String) (ps : List Project) (p : Project)
    → p.owner_user_id ≢ user
    → projects_of user (ps ++ p ∷ []) ≡ projects_of user ps
unfolding select projects_of
projects_of-append user [] p h = ground (arith, h, eq_iff p.owner_user_id user)
projects_of-append user (q ∷ qs) p h = ground (arith, projects_of-append user qs p h)

projects_of-update :
    (user by id name slug : String) (ps : List Project)
    → by ≢ user
    → projects_of user (update (is_owned by id) (renamed name slug) ps) ≡ projects_of user ps
unfolding select update projects_of
projects_of-update user by id name slug [] h = refl
projects_of-update user by id name slug (p ∷ ps) h = ground (
  arith,
  projects_of-update user by id name slug ps h,
  h,
  eq_iff p.owner_user_id user,
  eq_iff p.owner_user_id by,
)

projects_of-delete :
    (user by id : String) (ps : List Project)
    → by ≢ user
    → projects_of user (select (λ p. not (is_owned by id p)) ps) ≡ projects_of user ps
unfolding select projects_of
projects_of-delete user by id [] h = refl
projects_of-delete user by id (p ∷ ps) h = ground (
  arith,
  projects_of-delete user by id ps h,
  h,
  eq_iff p.owner_user_id user,
  eq_iff p.owner_user_id by,
)

deleted-others :
    (user by id : String) (db : Db)
    → by ≢ user
    → projects_of user (delete_project_rows by id db).projects ≡ projects_of user db.projects
unfolding delete_project_rows projects_of
deleted-others user by id db h = projects_of-delete user by id db.projects h

module _ (user : String) (db : Db) where
  create-others :
      (by name slug project_type id : String) (now : ℕ)
      → by ≢ user
      → projects_of user (create_project by name slug project_type id now db).0.projects
        ≡ projects_of user db.projects
  unfolding create_project insert_project
  create-others by name slug project_type id now h =
      ground (
        arith,
        projects_of-append user db.projects (new_project id by name slug project_type now) h,
      )

  bootstrap-others :
      (email display_name password_hash by project_id : String) (now : ℕ)
      → by ≢ user
      → projects_of user
          (bootstrap email display_name password_hash by project_id now db).0.projects
        ≡ projects_of user db.projects
  unfolding bootstrap insert_user insert_project
  bootstrap-others email display_name password_hash by project_id now h =
      ground (arith, projects_of-append user db.projects (first_project project_id by now) h)

  update-others :
      (by id name slug : String)
      → by ≢ user
      → projects_of user (update_project by id name slug db).0.projects
        ≡ projects_of user db.projects
  unfolding update_project updated_project
  update-others by id name slug h = ground (
    arith,
    projects_of-update user by id (trim_space name) (to_lower (trim_space slug)) db.projects h,
  )

  delete-others :
      (by id : String)
      → by ≢ user
      → projects_of user (delete_project by id db).0.projects ≡ projects_of user db.projects
  unfolding delete_project
  delete-others by id h = ground (arith, deleted-others user by id db h)

  connect-others :
      (parse_url : String → Option Url) (by project id : String) (repo : Repository) (now : ℕ)
      → (connect_repository parse_url by project repo id now db).0.projects ≡ db.projects
  unfolding connect_repository insert_repository
  connect-others parse_url by project id repo now = ground arith

  disconnect-others : (by repo : String) → (delete_repository by repo db).0.projects ≡ db.projects
  unfolding delete_repository deleted_repository delete_repository_rows
  disconnect-others by repo = ground arith

module _ (parse_url : String → Option Url) where
  serve-others :
      (user : String) (q : Request) (db : Db)
      → actor q ≢ user
      → projects_of user (serve parse_url q db).projects ≡ projects_of user db.projects
  unfolding serve
  serve-others user (req_bootstrap email display_name password_hash by project_id now) db h =
      bootstrap-others user db email display_name password_hash by project_id now h
  serve-others user (req_create by name slug project_type id now) db h =
      create-others user db by name slug project_type id now h
  serve-others user (req_update by id name slug) db h = update-others user db by id name slug h
  serve-others user (req_delete by id) db h = delete-others user db by id h
  serve-others user (req_connect by project repo id now) db h =
      ap (projects_of user) (connect-others user db parse_url by project id repo now)
  serve-others user (req_disconnect by repo) db h =
      ap (projects_of user) (disconnect-others user db by repo)

  -- Whatever other users do, in any order, a user's projects stay as they are.
  pub others_kept :
      (user : String) (qs : List Request) (db : Db)
      → All (λ q. actor q ≢ user) qs
      → projects_of user (serve_all parse_url qs db).projects ≡ projects_of user db.projects
  unfolding serve_all
  others_kept user [] db h = refl
  others_kept user (q ∷ qs) db (one, h) =
      others_kept user qs (serve parse_url q db) h ∙ serve-others user q db one
