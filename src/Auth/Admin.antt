-- ===== src/Auth/Admin.antt =====
-- The users in ms-auth/internal/usecase/admin_service.go. Each operation returns the new state and
-- its result; Outage says which of its database calls fail.
-- The record Tools has the libraries that the service calls. Left out is the metadata of an audit
-- event.
pub mod Create
pub mod Update
pub mod Roles
pub mod Manned
pub mod Written
pub mod Guarded
pub mod GuardedUsers
pub mod GuardedRoles
pub mod LastAdmin
pub mod Deactivation
pub mod Mutual
pub mod Services
use controlitix.Common.{
  ℕ, String, Bool, true, false, not, ◌||◌, ◌&&◌, List, [], ◌∷◌, ◌++◌, Option, none, some, ◌==◌,
  same, is_some, if◌then◌else◌, string_key, nat_key,
}
use Prim.Native.String.{◌++◌ as joined}
use controlitix.Common.Map.{Map, get}
use controlitix.Common.Result.{Result, ok, err, ◌>>=◌, ◌>>◌, refuse_if}
use controlitix.Auth.Types.{
  User, IdentitySource, RefreshRecord, ServiceAccount, AuditEvent, AuthError, Directory,
}
use controlitix.Auth.Names.{contains_role, validate_roles}
use controlitix.Auth.Sessions.{revoke_all_for_user}
use controlitix.Auth.Tokens.{unless_fails, or_error, get_roles}
use controlitix.Auth.Users.{
  find_by_id, create_user_row, UserChange, update, set_roles, count_active_admins_excluding,
}

pub record AuthDb : Type 0 where
  pub directory : Directory
  pub sessions : List RefreshRecord
  pub accounts : Map String ServiceAccount
  pub audit : List AuditEvent

pub record Tools : Type 0 where
  pub trim : String → String  -- strings.TrimSpace
  pub lower : String → String  -- lower() of SQL
  pub hash : String → Option String  -- Hash of the password hasher

pub record Outage : Type 0 where
  pub find_fails : Bool
  pub roles_fail : Bool
  pub count_fails : Bool
  pub source_fails : Bool
  pub create_fails : Bool
  pub update_fails : Bool
  pub reload_fails : Bool
  pub set_roles_fails : Bool
  pub revoke_fails : Bool
  pub audit_fails : Bool

abbrev pub no_outage : Outage
no_outage = record {
  find_fails = false;
  roles_fail = false;
  count_fails = false;
  source_fails = false;
  create_fails = false;
  update_fails = false;
  reload_fails = false;
  set_roles_fails = false;
  revoke_fails = false;
  audit_fails = false;
}

-- An event of an administrator's success.
abbrev pub admin_event : String → String → String → AuditEvent
admin_event actor action target = record {
  actor_subject = actor;
  action = action;
  target = target;
  result = "success";
  reason = "";
  ip = "";
  user_agent = "";
}

-- A failure of the audit service is only logged.
unfoldable pub record_audit : Bool → AuthDb → AuditEvent → AuthDb
record_audit true db e = db
record_audit false db e = record db { audit = db.audit ++ e ∷ [] }

-- FindByID with its error for a missing user.
unfoldable pub load_user : Outage → AuthDb → String → Result AuthError User
unfolding find_by_id
load_user o db id =
    find_by_id o.find_fails db.directory id >>= (λ found. or_error AuthError.user_not_found found)

-- No other active administrator would be left.
unfoldable pub refuse_last_admin : Tools → Outage → AuthDb → String → Result AuthError (Unit {0})
unfolding count_active_admins_excluding
refuse_last_admin t o db id =
    count_active_admins_excluding t.trim o.count_fails db.directory id
    >>= (λ count. refuse_if (count == 0) AuthError.last_admin)

unfoldable pub check_roles :
    Tools → Outage → AuthDb → User → String → List String → Result AuthError (Unit {0})
unfolding refuse_last_admin contains_role
check_roles t o db user actor roles =
    refuse_if (same user.subject actor && contains_role roles "admin")
      AuthError.forbidden_self_demote
    >> (if user.is_active && contains_role roles "admin"
        then refuse_last_admin t o db user.id
        else ok tt)

unfoldable pub ensure_can_deactivate_user :
    Tools → Outage → AuthDb → User → String → Result AuthError (Unit {0})
unfolding check_roles get_roles
ensure_can_deactivate_user t o db user actor =
    get_roles o.roles_fail db.directory user.id >>= (λ roles. check_roles t o db user actor roles)

-- The sessions of the user are revoked if it was deactivated; then the audit event.
unfoldable pub end_sessions :
    Outage → ℕ → AuthDb → Bool → String → String → AuditEvent → AuthDb × Result AuthError (Unit {0})
unfolding revoke_all_for_user record_audit
end_sessions o now db revokes id reason e =
    if revokes && o.revoke_fails then (db, err AuthError.internal) else (
      record_audit o.audit_fails
          (record db {
            sessions =
                if revokes then revoke_all_for_user db.sessions id now reason else db.sessions;
          })
          e,
      ok tt,
    )
