-- ===== src/Auth/Clients.antt =====
-- Issue of ms-auth/internal/usecase/service_token_service.go: a token for a service account. The
-- verification of a secret is the argument `verify`, `none` where the hasher fails; Wire has the
-- other calls of libraries.
pub mod Audited
use controlitix.Common.{
  ℕ, String, Bool, true, false, not, ◌||◌, List, [], ◌∷◌, ◌++◌, Option, none, some, same,
  if◌then◌else◌, string_key,
}
use Prim.Native.String.{◌++◌ as joined}
use controlitix.Common.Map.{Map}
use controlitix.Common.Result.{Result, ok, err, ◌>>=◌}
use controlitix.Auth.Types.{ServiceAccount, AuditEvent, AuthError, IssuedTokens, TokenConfig}
use controlitix.Auth.Names.{resolve_granted_scopes}
use controlitix.Auth.Tokens.{Codec, Chance, or_error, issue_for_service}
use controlitix.Auth.Accounts.{find_by_client_id, update_last_used}

pub record ServiceTokenInput : Type 0 where
  pub grant_type : String
  pub client_id : String
  pub client_secret : String
  pub scope : String
  pub user_agent : String
  pub ip : String

pub record ServiceTokenResult : Type 0 where
  pub access_token : String
  pub token_type : String
  pub expires_in : ℕ
  pub scope : String

-- The accounts and the audit log.
pub record ClientDb : Type 0 where
  pub accounts : Map String ServiceAccount
  pub audit : List AuditEvent

pub record Wire : Type 0 where
  pub codec : Codec
  pub has_space : String → Bool  -- strings.Contains(_, " ")
  pub fields : String → List String  -- strings.Fields
  pub verify : String → String → Option Bool

pub record Outage : Type 0 where
  pub find_fails : Bool
  pub stamp_fails : Bool
  pub audit_fails : Bool

-- The events of a refusal and of a success.
abbrev pub failure_event : ServiceTokenInput → String → String → AuditEvent
failure_event input client reason = record {
  actor_subject = "";
  action = "service_token.failure";
  target = client;
  result = "failure";
  reason = reason;
  ip = input.ip;
  user_agent = input.user_agent;
}

abbrev pub success_event : ServiceTokenInput → String → AuditEvent
success_event input client = record {
  actor_subject = joined "svc:" client;
  action = "service_token.success";
  target = client;
  result = "success";
  reason = "";
  ip = input.ip;
  user_agent = input.user_agent;
}

unfoldable pub record_client_audit : Bool → ClientDb → AuditEvent → ClientDb
record_client_audit true db e = db
record_client_audit false db e = record db { audit = db.audit ++ e ∷ [] }

module _ (w : Wire) (cfg : TokenConfig) (o : Outage) (ch : Chance) (now : ℕ)
    (input : ServiceTokenInput) where
  abbrev pub client_of : String
  client_of = w.codec.trim input.client_id

  abbrev pub secret_of : String
  secret_of = w.codec.trim input.client_secret

  -- A refusal with its audit event.
  unfoldable pub refuse :
      ClientDb → String → AuthError → ClientDb × Result AuthError ServiceTokenResult
  unfolding record_client_audit
  refuse db reason e =
      (record_client_audit o.audit_fails db (failure_event input client_of reason), err e)

  -- The end of Issue, once the account's use is stored.
  unfoldable pub tell_issued :
      ClientDb
      → IssuedTokens
      → List String
      → Result AuthError (Map String ServiceAccount)
      → ClientDb × Result AuthError ServiceTokenResult
  unfolding record_client_audit
  tell_issued db tokens granted (err e) = (db, err e)
  tell_issued db tokens granted (ok accounts) = (
    record_client_audit o.audit_fails (record db { accounts = accounts })
        (success_event input client_of),
    ok (record {
      access_token = tokens.access_token;
      token_type = "Bearer";
      expires_in = tokens.expires_in;
      scope = w.codec.join granted;
    }),
  )

  unfoldable pub stamp_issued :
      ClientDb
      → ServiceAccount
      → List String
      → Result AuthError IssuedTokens
      → ClientDb × Result AuthError ServiceTokenResult
  unfolding tell_issued update_last_used
  stamp_issued db account granted (err e) = (db, err e)
  stamp_issued db account granted (ok tokens) =
      tell_issued db tokens granted (update_last_used o.stamp_fails db.accounts account.id now)

  unfoldable pub issue_granted :
      ClientDb
      → ServiceAccount
      → Result AuthError (List String)
      → ClientDb × Result AuthError ServiceTokenResult
  unfolding stamp_issued refuse issue_for_service
  issue_granted db account (err AuthError.invalid_scope) =
      refuse db "invalid_scope" AuthError.invalid_scope
  issue_granted db account (err e) = (db, err e)
  issue_granted db account (ok granted) =
      stamp_issued db account granted (issue_for_service w.codec cfg ch now client_of granted)

  unfoldable pub issue_verified :
      ClientDb → ServiceAccount → Option Bool → ClientDb × Result AuthError ServiceTokenResult
  unfolding issue_granted refuse resolve_granted_scopes
  issue_verified db account none = (db, err AuthError.internal)
  issue_verified db account (some false) = refuse db "invalid_secret" AuthError.invalid_client
  issue_verified db account (some true) =
      if account.is_active
      then issue_granted db account
          (resolve_granted_scopes w.codec.trim w.fields account.scopes input.scope)
      else refuse db "client_disabled" AuthError.client_disabled

  unfoldable pub issue_found :
      ClientDb
      → Result AuthError (Option ServiceAccount)
      → ClientDb × Result AuthError ServiceTokenResult
  unfolding issue_verified refuse
  issue_found db (err e) = (db, err e)
  issue_found db (ok none) = refuse db "unknown_client" AuthError.invalid_client
  issue_found db (ok (some account)) =
      issue_verified db account (w.verify secret_of account.client_secret_hash)

  unfoldable pub issue : ClientDb → ClientDb × Result AuthError ServiceTokenResult
  unfolding issue_found find_by_client_id
  issue db =
      if not (same (w.codec.trim input.grant_type) "client_credentials")
      then (db, err AuthError.unsupported_grant)
      else if same client_of "" || same secret_of ""
      then (db, err AuthError.validation)
      else issue_found db
          (find_by_client_id w.codec.trim w.has_space o.find_fails db.accounts client_of)
