-- ===== src/Auth/Users.antt =====
-- ms-auth/internal/infrastructure/repository/user_repository.go over the tables auth.users and
-- auth.user_roles. A flag `fails` stands for a database error; a failed statement or transaction
-- changes nothing. The arguments `trim` and `lower` are strings.TrimSpace and SQL's lower().
-- The roles of a user are a list in the order in which they were stored: the ORDER BY of GetRoles is
-- left out.
use controlitix.Common.{
  ℕ, String, Bool, true, false, not, ◌||◌, ◌&&◌, List, [], ◌∷◌, ◌++◌, Option, none, some, ◌==◌,
  same, is_some, if◌then◌else◌, string_key, nat_key,
}
use controlitix.Common.Map.{Map, get, put}
use controlitix.Common.Tally.{tally}
use controlitix.Common.Result.{Result, ok, err, ◌>>=◌}
use controlitix.Auth.Types.{User, AuthError, Directory}
use controlitix.Auth.Names.{contains_role, is_allowed_role}
use controlitix.Auth.Tokens.{unless_fails, roles_of}

unfoldable pub find_by_id : Bool → Directory → String → Result AuthError (Option User)
find_by_id fails d id = unless_fails fails (ok (get d.users id))

-- The first row that passes a test; a unique index makes it the only one.
unfoldable pub first_user : (User → Bool) → Map String User → Option User
first_user p [] = none
first_user p ((id, u) ∷ users) = let rest = first_user p users in if p u then some u else rest

unfoldable pub find_by_subject : Bool → Directory → String → Result AuthError (Option User)
unfolding first_user
find_by_subject fails d subject =
    unless_fails fails (ok (first_user (λ u. same u.subject subject) d.users))

unfoldable pub find_by_source_and_username :
    (String → String) → Bool → Directory → ℕ → String → Result AuthError (Option User)
unfolding first_user
find_by_source_and_username lower fails d source username = unless_fails fails (
    ok
      (first_user (λ u. u.source_id == source && same (lower u.username) (lower username)) d.users))

-- The unique indexes on subject and on source and lower-case name.
abbrev pub clashes : (String → String) → User → User → Bool
clashes lower n u =
    same u.subject n.subject
    || u.source_id == n.source_id && same (lower u.username) (lower n.username)

-- INSERT with the key `id` that the database chooses.
unfoldable pub create_user_row :
    (String → String) → Bool → Directory → String → User → Result AuthError (Directory × User)
unfolding first_user
create_user_row lower fails d id n =
    if fails || is_some (get d.users id)
    then err AuthError.internal
    else if is_some (first_user (clashes lower n) d.users)
    then err AuthError.user_exists
    else ok (record d { users = put d.users id (record n { id = id }) }, record n { id = id })

-- COALESCE of a trimmed argument and of a flag.
abbrev pub or_text : (String → String) → Option String → String → String
or_text trim none old = old
or_text trim (some text) old = trim text

abbrev pub or_kept : {A : Type 0} → Option A → A → A
or_kept none old = old
or_kept (some new) old = new

-- The columns that an administrator may change.
pub record UserChange : Type 0 where
  pub display_name : Option String
  pub email : Option String
  pub password_hash : Option String
  pub is_active : Option Bool

abbrev pub changed_user : (String → String) → UserChange → User → User
changed_user trim c u = record u {
  display_name = or_text trim c.display_name u.display_name;
  email = or_text trim c.email u.email;
  password_hash = or_text trim c.password_hash u.password_hash;
  is_active = or_kept c.is_active u.is_active;
}

abbrev pub with_user : Directory → String → User → Directory
with_user d id u = record d { users = put d.users id u }

unfoldable pub update_found :
    (String → String)
    → Bool
    → Directory
    → String
    → UserChange
    → Option User
    → Directory × Result AuthError User
update_found trim reload_fails d id c none = (d, err AuthError.user_not_found)
update_found trim reload_fails d id c (some u) =
    (with_user d id (changed_user trim c u), unless_fails reload_fails (ok (changed_user trim c u)))

-- The UPDATE, then the user loaded again: that may fail after the row was changed.
unfoldable pub update :
    (String → String)
    → Bool
    → Bool
    → Directory
    → String
    → UserChange
    → Directory × Result AuthError User
unfolding update_found
update trim true reload_fails d id c = (d, err AuthError.internal)
update trim false reload_fails d id c = update_found trim reload_fails d id c (get d.users id)

abbrev pub logged_in_at : Directory → String → ℕ → Option User → Result AuthError Directory
logged_in_at d id at none = err AuthError.user_not_found
logged_in_at d id at (some u) = ok (with_user d id (record u { last_login_at = some at }))

unfoldable pub update_last_login : Bool → Directory → String → ℕ → Result AuthError Directory
update_last_login fails d id at = unless_fails fails (logged_in_at d id at (get d.users id))

-- The loop of SetRoles: no role twice, and only allowed ones.
unfoldable pub unique_role : List String → String → Result AuthError (List String)
unfolding contains_role
unique_role roles role =
    if not (is_allowed_role role)
    then err AuthError.internal
    else if contains_role roles role
    then ok roles
    else ok (roles ++ role ∷ [])

unfoldable pub unique_roles : List String → List String → Result AuthError (List String)
unfolding unique_role
unique_roles roles [] = ok roles
unique_roles roles (role ∷ rest) = unique_role roles role >>= (λ next. unique_roles next rest)

unfoldable pub set_roles : Bool → Directory → String → List String → Result AuthError Directory
unfolding unique_roles
set_roles fails d id roles =
    unique_roles [] roles
    >>= (λ kept. unless_fails fails (ok (record d { user_roles = put d.user_roles id kept })))

-- A row of the join of CountActiveAdminsExcluding.
abbrev pub is_active_admin : Directory → String → String × User → Bool
is_active_admin d exclude (id, u) =
    contains_role (roles_of (get d.user_roles id)) "admin"
    && u.is_active
    && (same exclude "" || not (same id exclude))

unfoldable pub count_active_admins_excluding :
    (String → String) → Bool → Directory → String → Result AuthError ℕ
unfolding tally contains_role
count_active_admins_excluding trim fails d exclude =
    unless_fails fails (ok (tally (is_active_admin d (trim exclude)) d.users))
