-- ===== src/Platform/Integrity.antt =====
-- What all requests of users keep: one user, projects of users, repositories of projects with public addresses.
pub mod Requests
use flyto_warroom.Prelude.{
  ℕ, suc, ◌+◌, ◌≤◌, ◌≡◌, ◌≢◌, refl, sym, ap, ◌∙◌, String, Bool, true, false, not, ◌&&◌, ◌||◌,
  Option, none, some, List, [], ◌∷◌, ◌++◌, arith, All, any, select, length, length-append,
  if◌then◌else◌, if_elim, str_eq, eq_iff, Option-cases, Bool-cases, inl, inr, trim_space, to_lower,
}
use flyto_warroom.Platform.{Db, User, Project, Repository, StoreError}
use flyto_warroom.Platform.Tables.{update, All-append, All-select, count}
use flyto_warroom.Platform.Scans.{repository}
use flyto_warroom.Platform.Workers.{delete_repository_rows}
use flyto_warroom.Platform.Projects.{
  bootstrap, bootstrap_open, create_project, update_project, delete_project, delete_project_rows,
  insert_project, insert_user, is_owned, renamed, new_project, updated_project, first_user,
  first_project,
}
use flyto_warroom.Platform.Connect.{
  Url, is_public_url, connect_repository, delete_repository, insert_repository, connected,
  deleted_repository, validate_public_clone_url,
}
use flyto_warroom.Platform.Tenancy.{
  Request, req_bootstrap, req_create, req_update, req_delete, req_connect, req_disconnect, serve,
  serve_all,
}

abbrev pub is_user : List User → Project → Bool
unfolding any
is_user us p = any (λ u. str_eq u.id p.owner_user_id) us

abbrev pub in_some : List Project → Repository → Bool
unfolding any
in_some ps r = any (λ p. str_eq p.id r.project_id) ps

is_user-append :
    (us : List User) (u : User) (p : Project)
    → is_user us p ≡ true
    → is_user (us ++ u ∷ []) p ≡ true
unfolding is_user any
is_user-append [] u p h = ground (arith, h)
is_user-append (v ∷ us) u p h = ground (arith, h, is_user-append us u p)

in_some-append :
    (ps : List Project) (p : Project) (r : Repository)
    → in_some ps r ≡ true
    → in_some (ps ++ p ∷ []) r ≡ true
unfolding in_some any
in_some-append [] p r h = ground (arith, h)
in_some-append (q ∷ ps) p r h = ground (arith, h, in_some-append ps p r)

pub in_some-update :
    (user id name slug : String) (ps : List Project) (r : Repository)
    → in_some (update (is_owned user id) (renamed name slug) ps) r ≡ in_some ps r
unfolding in_some any update
in_some-update user id name slug [] r = refl
in_some-update user id name slug (p ∷ ps) r = ground (arith, in_some-update user id name slug ps r)

in_some-delete :
    (user id : String) (ps : List Project) (r : Repository)
    → in_some ps r ≡ true
    → str_eq r.project_id id ≡ false
    → in_some (select (λ p. not (is_owned user id p)) ps) r ≡ true
unfolding in_some any select
in_some-delete user id [] r h out = ground (arith, h)
in_some-delete user id (p ∷ ps) r h out = ground (
  arith,
  h,
  out,
  in_some-delete user id ps r,
  eq_iff p.id r.project_id,
  eq_iff p.id id,
  eq_iff r.project_id id,
)

module _ (parse_url : String → Option Url) where
  abbrev pub IsHoused : List Project → Repository → Type 0
  unfolding in_some is_public_url
  IsHoused ps r =
      (in_some ps r ≡ true) × (is_public_url (parse_url (trim_space r.clone_url)) ≡ true)

  -- At most one user, projects that are theirs, repositories of these with validated addresses.
  pub record IsSound (db : Db) : Type 0 where
    pub one_user : length db.users ≤ 1
    pub owners : All (λ p. is_user db.users p ≡ true) db.projects
    pub homes : All (IsHoused db.projects) db.repositories

  pub homes-map :
      (ps qs : List Project) (rs : List Repository)
      → ((r : Repository) → in_some ps r ≡ true → in_some qs r ≡ true)
      → All (IsHoused ps) rs
      → All (IsHoused qs) rs
  unfolding IsHoused
  homes-map ps qs [] f h = tt
  homes-map ps qs (r ∷ rs) f ((one, url), h) = ((f r one, url), homes-map ps qs rs f h)

  owners-map :
      (us : List User) (u : User) (ps : List Project)
      → All (λ p. is_user us p ≡ true) ps
      → All (λ p. is_user (us ++ u ∷ []) p ≡ true) ps
  owners-map us u [] h = tt
  owners-map us u (p ∷ ps) (one, h) = (is_user-append us u p one, owners-map us u ps h)

  pub homes-delete :
      (user id : String) (ps : List Project) (rs : List Repository)
      → All (IsHoused ps) rs
      → All
          (IsHoused (select (λ p. not (is_owned user id p)) ps))
          (select (λ r. not (str_eq r.project_id id)) rs)
  unfolding IsHoused select
  homes-delete user id ps [] h = tt
  homes-delete user id ps (r ∷ rs) ((one, url), h) =
      let rest = homes-delete user id ps rs h in
      elim (Bool-cases (str_eq r.project_id id)) [
        | inl e ↦ rw e rest
        | inr e ↦ rw e ((in_some-delete user id ps r one e, url), rest)
      ]

  pub IsSound-project :
      (db : Db) (p : Project)
      → is_user db.users p ≡ true
      → IsSound db
      → IsSound (record db { projects = db.projects ++ p ∷ [] })
  IsSound-project db p h sound = record {
    one_user = sound.one_user;
    owners = All-append _ db.projects (p ∷ []) sound.owners (h, tt);
    homes =
        homes-map db.projects (db.projects ++ p ∷ []) db.repositories
          (λ r. in_some-append db.projects p r) sound.homes;
  }

  pub IsSound-user :
      (db : Db) (u : User)
      → length db.users ≡ 0
      → IsSound db
      → IsSound (record db { users = db.users ++ u ∷ [] })
  IsSound-user db u none_yet sound = record {
    one_user = omega (arith, none_yet, length-append db.users (u ∷ []));
    owners = owners-map db.users u db.projects sound.owners;
    homes = sound.homes;
  }
