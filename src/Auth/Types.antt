-- ===== src/Auth/Types.antt =====
-- The types of ms-auth/internal/domain, and of the tables of
-- ms-auth/migrations/000001_auth_schema.sql that the services write.
-- A time is a number of nanoseconds. Left out are the columns created_at and updated_at, which the
-- database fills and no service reads, and the free-form maps Config, Extra, Raw and Metadata.
use controlitix.Common.{ℕ, ◌/◌, String, Bool, List, Option}
use controlitix.Common.Map.{Map}

pub record IdentitySource : Type 0 where
  pub id : ℕ
  pub kind : String  -- Type
  pub name : String
  pub is_enabled : Bool

pub record User : Type 0 where
  pub id : String
  pub subject : String
  pub source_id : ℕ
  pub username : String
  pub display_name : String
  pub email : String
  pub password_hash : String
  pub is_active : Bool
  pub last_login_at : Option ℕ

pub record ServiceAccount : Type 0 where
  pub id : String
  pub client_id : String
  pub client_secret_hash : String
  pub display_name : String
  pub scopes : List String
  pub is_active : Bool
  pub last_used_at : Option ℕ

pub record AccessClaims : Type 0 where
  pub issuer : String
  pub audience : List String
  pub subject : String
  pub issued_at : ℕ
  pub not_before : ℕ
  pub expires_at : ℕ
  pub jwt_id : String
  pub source : String
  pub roles : List String
  pub scope : String
  pub username : String
  pub display_name : String
  pub client_id : String

pub record IssuedTokens : Type 0 where
  pub access_token : String
  pub refresh_token : String
  pub expires_in : ℕ
  pub refresh_expires_in : ℕ
  pub family_id : String

pub record RefreshRecord : Type 0 where
  pub id : String
  pub user_id : String
  pub family_id : String
  pub token_hash : String
  pub parent_id : Option String
  pub issued_at : ℕ
  pub expires_at : ℕ
  pub used_at : Option ℕ
  pub revoked_at : Option ℕ
  pub revoke_reason : Option String  -- a column of the table only
  pub user_agent : String
  pub ip : String

pub record AuditEvent : Type 0 where
  pub actor_subject : String
  pub action : String
  pub target : String
  pub result : String
  pub reason : String
  pub ip : String
  pub user_agent : String

pub record TokenMeta : Type 0 where
  pub user_agent : String
  pub ip : String

pub record TokenConfig : Type 0 where
  pub issuer : String
  pub audience_user : String
  pub audience_service : String
  pub access_ttl : ℕ
  pub refresh_ttl : ℕ

-- The errors of domain/errors.go that the services return; `internal` stands for every other one.
-- A wrapped error is the error it wraps, as for errors.Is.
pub data AuthError : Type 0 where
  internal invalid_credentials user_disabled source_disabled user_not_found source_not_found
        unsupported_grant invalid_client client_disabled invalid_scope invalid_refresh
        refresh_reused validation forbidden_self_demote last_admin client_id_exists user_exists
        service_not_found :
      AuthError

-- The rows that a token service reads: auth.users, auth.user_roles and auth.identity_sources.
pub record Directory : Type 0 where
  pub users : Map String User
  pub user_roles : Map String (List String)
  pub sources : Map ℕ IdentitySource

-- Unix() of a time, and the whole seconds of a duration.
abbrev pub seconds : ℕ → ℕ
seconds t = t / 1000000000
