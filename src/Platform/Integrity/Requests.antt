-- ===== src/Platform/Integrity/Requests.antt =====
-- What each request does to the tables of users, projects and repositories, and that it keeps them sound.
use flyto_warroom.Prelude.{
  ℕ, ◌≡◌, ◌⊎◌, refl, String, true, Option, List, [], ◌∷◌, ◌++◌, arith, select, length, inl, inr,
  trim_space, to_lower,
}
use flyto_warroom.Platform.{Db, User, Project, Repository}
use flyto_warroom.Platform.Tables.{update, All-append, All-select, All-update, count}
use flyto_warroom.Platform.Workers.{delete_repository_rows}
use flyto_warroom.Platform.Projects.{
  bootstrap, bootstrap_open, create_project, update_project, delete_project, delete_project_rows,
  insert_project, insert_user, is_owned, renamed, new_project, updated_project, first_user,
  first_project,
}
use flyto_warroom.Platform.Connect.{
  Url, is_public_url, connect_repository, delete_repository, insert_repository, connected,
  deleted_repository, validate_public_clone_url,
}
use flyto_warroom.Platform.Tenancy.{
  Request, req_bootstrap, req_create, req_update, req_delete, req_connect, req_disconnect, serve,
  serve_all,
}
use flyto_warroom.Platform.Integrity.{
  is_user, in_some, IsHoused, IsSound, IsSound-project, IsSound-user, homes-delete, homes-map,
  in_some-update,
}

count_all : (us : List User) → count (λ u. true) us ≡ length us
unfolding select
count_all [] = refl
count_all (u ∷ us) = omega (arith, count_all us)

module _ (parse_url : String → Option Url) where
  create-cases :
      (user name slug project_type id : String) (now : ℕ) (db : Db)
      → ((create_project user name slug project_type id now db).0 ≡ db)
        ⊎ ((is_user db.users (new_project id user name slug project_type now) ≡ true)
            × ((create_project user name slug project_type id now db).0 ≡ record db {
              projects = db.projects ++ new_project id user name slug project_type now ∷ [];
            }))
  unfolding create_project insert_project is_user
  create-cases user name slug project_type id now db = ground arith

  connect-cases :
      (user project id : String) (repo : Repository) (now : ℕ) (db : Db)
      → ((connect_repository parse_url user project repo id now db).0 ≡ db)
        ⊎ ((in_some db.projects (connected id project now repo) ≡ true)
            × (is_public_url (parse_url (trim_space (connected id project now repo).clone_url))
                ≡ true)
            × ((connect_repository parse_url user project repo id now db).0 ≡ record db {
              repositories = db.repositories ++ connected id project now repo ∷ [];
            }))
  unfolding connect_repository insert_repository in_some validate_public_clone_url
  connect-cases user project id repo now db = ground arith

  update-cases :
      (user id name slug : String) (db : Db)
      → ((update_project user id name slug db).0 ≡ db)
        ⊎ ((update_project user id name slug db).0 ≡ record db {
          projects =
              update
                (is_owned user id)
                (renamed (trim_space name) (to_lower (trim_space slug)))
                db.projects;
        })
  unfolding update_project updated_project
  update-cases user id name slug db = ground arith

  delete-cases :
      (user id : String) (db : Db)
      → ((delete_project user id db).0 ≡ db)
        ⊎ ((delete_project user id db).0 ≡ delete_project_rows user id db)
  unfolding delete_project
  delete-cases user id db = ground arith

  disconnect-cases :
      (user repo : String) (db : Db)
      → ((delete_repository user repo db).0 ≡ db)
        ⊎ ((delete_repository user repo db).0 ≡ delete_repository_rows repo db)
  unfolding delete_repository deleted_repository
  disconnect-cases user repo db = ground arith

  bootstrapped : User → Project → Db → Db
  bootstrapped u p db = record db { users = db.users ++ u ∷ []; projects = db.projects ++ p ∷ [] }

  bootstrap-cases :
      (email display_name password_hash user_id project_id : String) (now : ℕ) (db : Db)
      → ((bootstrap email display_name password_hash user_id project_id now db).0 ≡ db)
        ⊎ ((length db.users ≡ 0)
            × (is_user
                  (db.users ++ first_user user_id email display_name password_hash now ∷ [])
                  (first_project project_id user_id now)
                ≡ true)
            × ((bootstrap email display_name password_hash user_id project_id now db).0
                ≡ bootstrapped
                    (first_user user_id email display_name password_hash now)
                    (first_project project_id user_id now)
                    db))
  unfolding bootstrap insert_user insert_project is_user bootstrapped bootstrap_open
  bootstrap-cases email display_name password_hash user_id project_id now db =
      ground (arith, count_all db.users)

  IsSound-delete_project :
      (user id : String) (db : Db)
      → IsSound parse_url db
      → IsSound parse_url (delete_project_rows user id db)
  unfolding delete_project_rows
  IsSound-delete_project user id db sound = record {
    one_user = sound.one_user;
    owners = All-select _ _ db.projects sound.owners;
    homes = homes-delete parse_url user id db.projects db.repositories sound.homes;
  }

  IsSound-update :
      (user id name slug : String) (db : Db)
      → IsSound parse_url db
      → IsSound parse_url
          (record db { projects = update (is_owned user id) (renamed name slug) db.projects })
  unfolding is_user
  IsSound-update user id name slug db sound = record {
    one_user = sound.one_user;
    owners = All-update _ _ _ db.projects (λ p h u. u) sound.owners;
    homes =
        homes-map parse_url db.projects (update (is_owned user id) (renamed name slug) db.projects)
          db.repositories (λ r h. rw (in_some-update user id name slug db.projects r) h)
          sound.homes;
  }

  IsSound-delete :
      (repo : String) (db : Db)
      → IsSound parse_url db
      → IsSound parse_url (delete_repository_rows repo db)
  unfolding delete_repository_rows
  IsSound-delete repo db sound = record {
    one_user = sound.one_user;
    owners = sound.owners;
    homes = All-select _ _ db.repositories sound.homes;
  }

  IsSound-connect :
      (r : Repository) (db : Db)
      → in_some db.projects r ≡ true
      → is_public_url (parse_url (trim_space r.clone_url)) ≡ true
      → IsSound parse_url db
      → IsSound parse_url (record db { repositories = db.repositories ++ r ∷ [] })
  unfolding IsHoused
  IsSound-connect r db h url sound = record {
    one_user = sound.one_user;
    owners = sound.owners;
    homes = All-append _ db.repositories (r ∷ []) sound.homes ((h, url), tt);
  }

  IsSound-bootstrapped :
      (u : User) (p : Project) (db : Db)
      → length db.users ≡ 0
      → is_user (db.users ++ u ∷ []) p ≡ true
      → IsSound parse_url db
      → IsSound parse_url (bootstrapped u p db)
  unfolding bootstrapped
  IsSound-bootstrapped u p db none_yet owner sound =
      IsSound-project parse_url (record db { users = db.users ++ u ∷ [] }) p owner
        (IsSound-user parse_url db u none_yet sound)

  serve-IsSound :
      (q : Request) (db : Db) → IsSound parse_url db → IsSound parse_url (serve parse_url q db)
  unfolding serve
  serve-IsSound (req_bootstrap email display_name password_hash user_id project_id now) db sound =
      elim (bootstrap-cases email display_name password_hash user_id project_id now db) [
        | inl e ↦ rw e sound
        | inr (n, u, e) ↦ rw e (IsSound-bootstrapped _ _ db n u sound)
      ]
  serve-IsSound (req_create user name slug project_type id now) db sound =
      elim (create-cases user name slug project_type id now db) [
        | inl e ↦ rw e sound
        | inr (u, e) ↦ rw e (IsSound-project parse_url db _ u sound)
      ]
  serve-IsSound (req_update user id name slug) db sound = elim (update-cases user id name slug db) [
    | inl e ↦ rw e sound
    | inr e ↦ rw e (IsSound-update user id (trim_space name) (to_lower (trim_space slug)) db sound)
  ]
  serve-IsSound (req_delete user id) db sound = elim (delete-cases user id db) [
    | inl e ↦ rw e sound
    | inr e ↦ rw e (IsSound-delete_project user id db sound)
  ]
  serve-IsSound (req_connect user project repo id now) db sound =
      elim (connect-cases user project id repo now db) [
        | inl e ↦ rw e sound
        | inr (h, url, e) ↦ rw e (IsSound-connect _ db h url sound)
      ]
  serve-IsSound (req_disconnect user repo) db sound = elim (disconnect-cases user repo db) [
    | inl e ↦ rw e sound
    | inr e ↦ rw e (IsSound-delete repo db sound)
  ]

  -- All requests, in any order, keep tables sound that were: at most one user, each project owned by a user,
  -- each repository in some project and with an address that passes the validation.
  pub serve_all-IsSound :
      (qs : List Request) (db : Db)
      → IsSound parse_url db
      → IsSound parse_url (serve_all parse_url qs db)
  unfolding serve_all
  serve_all-IsSound [] db sound = sound
  serve_all-IsSound (q ∷ qs) db sound =
      serve_all-IsSound qs (serve parse_url q db) (serve-IsSound q db sound)
