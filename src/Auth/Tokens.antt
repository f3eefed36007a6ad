-- ===== src/Auth/Tokens.antt =====
-- ms-auth/internal/usecase/token_service.go, with GetByID, GetRoles and GetSourceType of
-- ms-auth/internal/infrastructure/repository/user_lookup_adapter.go.
-- Cryptography, base64 and strings.TrimSpace are the record Codec. What the source of randomness
-- and the database deliver to a call is an argument: Chance and Outage.
use controlitix.Common.{
  ℕ, ◌+◌, String, Bool, true, false, List, [], ◌∷◌, Option, none, some, same, is_empty,
  if◌then◌else◌, string_key, nat_key,
}
use Prim.Native.String.{◌++◌ as joined}
use controlitix.Common.Map.{get}
use controlitix.Common.Result.{Result, ok, err, ◌>>=◌}
use controlitix.Auth.Types.{
  User, IdentitySource, AccessClaims, IssuedTokens, RefreshRecord, TokenMeta, TokenConfig,
  AuthError, Directory, seconds,
}
use controlitix.Auth.Names.{normalize_list}
use controlitix.Auth.Sessions.{NewRecord, create}

pub record Codec : Type 0 where
  pub trim : String → String  -- strings.TrimSpace
  pub decode : String → Option (List ℕ)  -- base64.RawURLEncoding.DecodeString
  pub encode : List ℕ → String  -- base64.RawURLEncoding.EncodeToString
  pub digest : List ℕ → String  -- sha256.Sum256, in hexadecimal
  pub sign : AccessClaims → Option String  -- SignedString of the claims under the key
  pub join : List String → String  -- strings.Join(_, " ")

-- What io.ReadFull delivers, `none` where it fails, and the key of a new row.
pub record Chance : Type 0 where
  pub jti : Option String  -- newUUIDv4String
  pub family : Option String  -- newUUIDv4String
  pub raw_token : Option (List ℕ)  -- 32 bytes
  pub row_id : String

-- Which of the database calls fail.
pub record Outage : Type 0 where
  pub find_fails : Bool
  pub revoke_fails : Bool
  pub mark_fails : Bool
  pub user_fails : Bool
  pub roles_fail : Bool
  pub source_fails : Bool
  pub create_fails : Bool

abbrev pub no_outage : Outage
no_outage = record {
  find_fails = false;
  revoke_fails = false;
  mark_fails = false;
  user_fails = false;
  roles_fail = false;
  source_fails = false;
  create_fails = false;
}

-- An error for a missing value.
abbrev pub or_error : {A : Type 0} → AuthError → Option A → Result AuthError A
or_error e none = err e
or_error e (some a) = ok a

abbrev pub unless_fails : {A : Type 0} → Bool → Result AuthError A → Result AuthError A
unless_fails true a = err AuthError.internal
unless_fails false a = a

unfoldable pub get_by_id : Bool → Directory → String → Result AuthError User
get_by_id fails d id = unless_fails fails (or_error AuthError.user_not_found (get d.users id))

abbrev pub roles_of : Option (List String) → List String
roles_of none = []
roles_of (some roles) = roles

unfoldable pub get_roles : Bool → Directory → String → Result AuthError (List String)
get_roles fails d id = unless_fails fails (ok (roles_of (get d.user_roles id)))

abbrev pub source_kind : Option IdentitySource → Result AuthError String
source_kind none = err AuthError.source_not_found
source_kind (some s) = ok s.kind

unfoldable pub get_source_type : Bool → Directory → ℕ → Result AuthError String
get_source_type fails d id = unless_fails fails (source_kind (get d.sources id))

-- What the lookups of Rotate find: the user, its roles and the type of its source.
pub record Found : Type 0 where
  pub user : User
  pub roles : List String
  pub source_type : String

unfoldable pub look_up : Outage → Directory → String → Result AuthError Found
unfolding get_by_id get_roles get_source_type
look_up o d id = get_by_id o.user_fails d id >>= (λ user.
    get_roles o.roles_fail d user.id >>= (λ roles.
      get_source_type o.source_fails d user.source_id
      >>= (λ kind. ok (record { user = user; roles = roles; source_type = kind }))))

module _ (c : Codec) (cfg : TokenConfig) where
  unfoldable pub generate_refresh_token_pair : Option (List ℕ) → Result AuthError (String × String)
  generate_refresh_token_pair none = err AuthError.internal
  generate_refresh_token_pair (some raw) = ok (c.encode raw, c.digest raw)

  unfoldable pub hash_raw : Option (List ℕ) → Result AuthError String
  hash_raw none = err AuthError.invalid_refresh
  hash_raw (some raw) = if is_empty raw then err AuthError.invalid_refresh else ok (c.digest raw)

  -- Every error of hashOpaqueRefreshToken means the same to its callers.
  unfoldable pub hash_opaque_refresh_token : String → Result AuthError String
  unfolding hash_raw
  hash_opaque_refresh_token token =
      if same (c.trim token) ""
      then err AuthError.invalid_refresh
      else hash_raw (c.decode (c.trim token))

  -- The claims of a user's access token.
  abbrev pub user_claims : User → String → List String → ℕ → String → AccessClaims
  user_claims user source roles now jti = record {
    issuer = cfg.issuer;
    audience = cfg.audience_user ∷ [];
    subject = user.subject;
    issued_at = seconds now;
    not_before = seconds now;
    expires_at = seconds (now + cfg.access_ttl);
    jwt_id = jti;
    source = source;
    roles = normalize_list c.trim roles;
    scope = "";
    username = user.username;
    display_name = user.display_name;
    client_id = "";
  }

  abbrev pub service_claims : String → List String → ℕ → String → AccessClaims
  service_claims client scopes now jti = record {
    issuer = cfg.issuer;
    audience = cfg.audience_service ∷ [];
    subject = joined "svc:" client;
    issued_at = seconds now;
    not_before = seconds now;
    expires_at = seconds (now + cfg.access_ttl);
    jwt_id = jti;
    source = "local";
    roles = [];
    scope = c.join (normalize_list c.trim scopes);
    username = "";
    display_name = "";
    client_id = client;
  }

  -- The new row, and the pair that the user is given.
  abbrev pub session_row : User → String → Option String → String → ℕ → TokenMeta → NewRecord
  session_row user family parent hash now meta = record {
    user_id = user.id;
    family_id = family;
    token_hash = hash;
    parent_id = parent;
    issued_at = now;
    expires_at = now + cfg.refresh_ttl;
    user_agent = meta.user_agent;
    ip = meta.ip;
  }

  abbrev pub issued_pair : String → String → String → IssuedTokens
  issued_pair access refresh family = record {
    access_token = access;
    refresh_token = refresh;
    expires_in = seconds cfg.access_ttl;
    refresh_expires_in = seconds cfg.refresh_ttl;
    family_id = family;
  }

  -- The part that IssueForUser and Rotate share: an access token for the claims, a refresh token,
  -- and its row in the family.
  unfoldable pub mint :
      Outage
      → Chance
      → List RefreshRecord
      → ℕ
      → TokenMeta
      → Found
      → String
      → Option String
      → Result AuthError (List RefreshRecord × IssuedTokens)
  unfolding generate_refresh_token_pair create normalize_list
  mint o ch rows now meta f family parent = or_error AuthError.internal ch.jti >>= (λ jti.
      or_error AuthError.internal (c.sign (user_claims f.user f.source_type f.roles now jti))
      >>= (λ access. generate_refresh_token_pair ch.raw_token >>= (λ pair.
          create o.create_fails rows ch.row_id (session_row f.user family parent pair.1 now meta)
          >>= (λ stored. ok (stored, issued_pair access pair.0 family)))))

  unfoldable pub issue_for_user :
      Outage
      → Chance
      → List RefreshRecord
      → ℕ
      → TokenMeta
      → Found
      → Result AuthError (List RefreshRecord × IssuedTokens)
  unfolding mint
  issue_for_user o ch rows now meta f =
      or_error AuthError.internal ch.family >>= (λ family. mint o ch rows now meta f family none)

  unfoldable pub issue_for_service :
      Chance → ℕ → String → List String → Result AuthError IssuedTokens
  unfolding normalize_list
  issue_for_service ch now client scopes = or_error AuthError.internal ch.jti >>= (λ jti.
      or_error AuthError.internal (c.sign (service_claims client scopes now jti)) >>= (λ access.
        ok (record {
          access_token = access;
          refresh_token = "";
          expires_in = seconds cfg.access_ttl;
          refresh_expires_in = 0;
          family_id = "";
        })))
