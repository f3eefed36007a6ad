-- ===== src/Auth/Login.antt =====
-- Authenticate of ms-auth/internal/usecase/auth_service.go, with FindByType and ResolveRoles of
-- ms-auth/internal/infrastructure/repository/identity_source_repository.go and the provider of
-- ms-auth/internal/infrastructure/identity/local.go. The sources of the directory stand in the
-- order of their keys. Desk has the calls of libraries, the other providers of the registry and
-- the table of role mappings; FindByType returns no nil.
pub mod Vouched
pub mod Entered
use controlitix.Common.{
  ℕ, String, Bool, true, false, ◌&&◌, List, [], ◌∷◌, ◌++◌, Option, none, some, ◌==◌, same, is_empty,
  if◌then◌else◌, string_key,
}
use controlitix.Common.Map.{Map}
use controlitix.Common.Result.{Result, ok, err, ◌>>=◌}
use controlitix.Auth.Types.{User, IdentitySource, AuthError, Directory}
use controlitix.Auth.Names.{merge_roles, contains_role}
use controlitix.Auth.Tokens.{unless_fails, or_error, get_roles}
use controlitix.Auth.Users.{
  find_by_subject, find_by_source_and_username, create_user_row, update_last_login,
}

pub record Credentials : Type 0 where
  pub username : String
  pub password : String

pub record ExternalIdentity : Type 0 where
  pub subject : String
  pub username : String
  pub display_name : String
  pub email : String
  pub groups : List String

pub record AuthenticatedUser : Type 0 where
  pub user : User
  pub source : IdentitySource
  pub roles : List String

-- A row of auth.role_mappings.
pub record RoleMapping : Type 0 where
  pub source_id : ℕ
  pub external_group : String
  pub role_code : String

abbrev pub Provider : Type 0
Provider = IdentitySource → Credentials → Result AuthError (Option ExternalIdentity)

pub record Desk : Type 0 where
  pub trim : String → String  -- strings.TrimSpace
  pub lower : String → String  -- strings.ToLower, and lower() of SQL
  pub verify : String → String → Option Bool  -- Verify of the password hasher
  pub distinct : List String → List String  -- SELECT DISTINCT ... ORDER BY
  pub mappings : List RoleMapping
  pub providers : String → Option Provider  -- the registry, but for the local provider

pub record Outage : Type 0 where
  pub sources_fail : Bool
  pub local_fails : Bool
  pub find_fails : Bool
  pub create_fails : Bool
  pub roles_fail : Bool
  pub mapped_fails : Bool
  pub login_fails : Bool

-- FindByType.
unfoldable pub of_kind : Map ℕ IdentitySource → String → List IdentitySource
of_kind [] kind = []
of_kind ((id, s) ∷ sources) kind =
    let rest = of_kind sources kind in if same s.kind kind then s ∷ rest else rest

unfoldable pub first_enabled : List IdentitySource → Option IdentitySource
first_enabled [] = none
first_enabled (s ∷ sources) =
    let rest = first_enabled sources in if s.is_enabled then some s else rest

-- The choice among the sources of a type.
unfoldable pub enabled_source : List IdentitySource → Result AuthError IdentitySource
unfolding first_enabled
enabled_source [] = err AuthError.source_not_found
enabled_source (s ∷ sources) = or_error AuthError.source_disabled (first_enabled (s ∷ sources))

module _ (k : Desk) (o : Outage) where
  unfoldable pub resolve_source : Directory → String → Result AuthError IdentitySource
  unfolding enabled_source of_kind
  resolve_source d kind =
      unless_fails o.sources_fail (ok (of_kind d.sources (k.lower (k.trim kind))))
      >>= (λ sources. enabled_source sources)

  -- The password of a local user.
  unfoldable pub check_password :
      Credentials → Option User → Result AuthError (Option ExternalIdentity)
  check_password creds none = err AuthError.invalid_credentials
  check_password creds (some u) =
      if same u.password_hash ""
      then err AuthError.invalid_credentials
      else (or_error AuthError.internal (k.verify creds.password u.password_hash) >>= (λ match.
          if match
          then (if u.is_active
              then ok (
                  some (record {
                    subject = u.subject;
                    username = u.username;
                    display_name = u.display_name;
                    email = u.email;
                    groups = [];
                  }))
              else err AuthError.user_disabled)
          else err AuthError.invalid_credentials))

  unfoldable pub local_authenticate : Directory → Provider
  unfolding check_password find_by_source_and_username
  local_authenticate d source creds =
      find_by_source_and_username k.lower o.local_fails d source.id creds.username
      >>= (λ user. check_password creds user)

  -- registry.Get
  unfoldable pub provider_of : Directory → String → Option Provider
  unfolding local_authenticate
  provider_of d kind = if same kind "local" then some (local_authenticate d) else k.providers kind

  -- The loop of ResolveRoles, after TrimSpace and ToLower.
  unfoldable pub canonical_groups : List String → List String
  canonical_groups [] = []
  canonical_groups (group ∷ groups) =
      let rest = canonical_groups groups in
      if same (k.lower (k.trim group)) "" then rest else k.lower (k.trim group) ∷ rest

  unfoldable pub mapped_roles : List RoleMapping → ℕ → List String → List String
  unfolding contains_role
  mapped_roles [] source groups = []
  mapped_roles (m ∷ mappings) source groups =
      let rest = mapped_roles mappings source groups in
      if m.source_id == source && contains_role groups (k.lower m.external_group)
      then m.role_code ∷ rest
      else rest

  unfoldable pub resolve_roles : ℕ → List String → Result AuthError (List String)
  unfolding canonical_groups mapped_roles
  resolve_roles source groups =
      if is_empty (canonical_groups groups)
      then ok []
      else unless_fails o.mapped_fails
          (ok (k.distinct (mapped_roles k.mappings source (canonical_groups groups))))

  -- The user of an identity, created when it logs in for the first time.
  unfoldable pub known_user :
      String
      → Directory
      → IdentitySource
      → ExternalIdentity
      → Option User
      → Result AuthError (Directory × User)
  unfolding create_user_row
  known_user id d source e (some u) = ok (d, u)
  known_user id d source e none = create_user_row k.lower o.create_fails d id (record {
    id = "";
    subject = e.subject;
    source_id = source.id;
    username = e.username;
    display_name = e.display_name;
    email = e.email;
    password_hash = "";
    is_active = true;
    last_login_at = none;
  })

  unfoldable pub user_of :
      String → Directory → IdentitySource → ExternalIdentity → Result AuthError (Directory × User)
  unfolding known_user find_by_subject
  user_of id d source e =
      find_by_subject o.find_fails d e.subject >>= (λ user. known_user id d source e user)

  -- The writes and lookups of Authenticate once the user is known.
  unfoldable pub enter :
      ℕ
      → Directory
      → IdentitySource
      → ExternalIdentity
      → User
      → Result AuthError (Directory × AuthenticatedUser)
  unfolding get_roles resolve_roles merge_roles update_last_login
  enter now d source e u =
      if u.is_active
      then (get_roles o.roles_fail d u.id >>= (λ local.
          resolve_roles source.id e.groups >>= (λ mapped.
            update_last_login o.login_fails d u.id now >>= (λ after. ok (
              after,
              record {
                user = record u { last_login_at = some now };
                source = source;
                roles = merge_roles k.trim local mapped;
              },
            )))))
      else err AuthError.user_disabled

  -- A failure after the user was created leaves it in the directory.
  unfoldable pub tell_entered :
      Directory
      → Result AuthError (Directory × AuthenticatedUser)
      → Directory × Result AuthError AuthenticatedUser
  tell_entered d (err e) = (d, err e)
  tell_entered d (ok (after, a)) = (after, ok a)

  unfoldable pub enter_known :
      ℕ
      → Directory
      → IdentitySource
      → ExternalIdentity
      → Result AuthError (Directory × User)
      → Directory × Result AuthError AuthenticatedUser
  unfolding tell_entered enter
  enter_known now d source e (err x) = (d, err x)
  enter_known now d source e (ok (after, u)) = tell_entered after (enter now after source e u)

  unfoldable pub identified :
      String
      → ℕ
      → Directory
      → Result AuthError (IdentitySource × ExternalIdentity)
      → Directory × Result AuthError AuthenticatedUser
  unfolding enter_known user_of
  identified id now d (err e) = (d, err e)
  identified id now d (ok (source, e)) = enter_known now d source e (user_of id d source e)

  -- Up to the identity, nothing is written.
  unfoldable pub identify :
      Directory → String → Credentials → Result AuthError (IdentitySource × ExternalIdentity)
  unfolding resolve_source provider_of
  identify d kind creds = resolve_source d kind >>= (λ source.
      or_error AuthError.source_not_found (provider_of d source.kind) >>= (λ provider.
        provider source creds >>= (λ identity.
          or_error AuthError.invalid_credentials identity >>= (λ e. ok (source, e)))))

  unfoldable pub authenticate :
      String → ℕ → Directory → String → Credentials → Directory × Result AuthError AuthenticatedUser
  unfolding identified identify
  authenticate id now d kind creds = identified id now d (identify d kind creds)
