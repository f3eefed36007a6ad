-- ===== src/Auth/Admin/Roles.antt =====
-- SetUserRoles, RemoveUserRole and RevokeUserSessions of ms-auth/internal/usecase/admin_service.go.
use controlitix.Common.{
  ℕ, String, Bool, true, not, ◌&&◌, List, [], ◌∷◌, same, if◌then◌else◌, string_key, nat_key,
}
use controlitix.Common.Result.{Result, ok, err, ◌>>=◌, ◌>>◌, refuse_if}
use controlitix.Auth.Types.{User, AuthError, Directory}
use controlitix.Auth.Names.{contains_role, validate_roles}
use controlitix.Auth.Tokens.{get_roles}
use controlitix.Auth.Users.{set_roles}
use controlitix.Auth.Admin.{
  AuthDb, Tools, Outage, admin_event, record_audit, load_user, refuse_last_admin, end_sessions,
}

-- An administrator who would not be one any more.
abbrev pub demotes : List String → List String → Bool
demotes current next = contains_role current "admin" && not (contains_role next "admin")

-- The checks on the roles that the user has, against the validated new ones.
unfoldable pub check_demotion :
    Tools
    → Outage
    → AuthDb
    → String
    → User
    → List String
    → List String
    → Result AuthError (Unit {0})
unfolding refuse_last_admin contains_role
check_demotion t o db actor user next current =
    refuse_if (same user.subject actor && demotes current next) AuthError.forbidden_self_demote
    >> (if user.is_active && demotes current next then refuse_last_admin t o db user.id else ok tt)

-- All that SetUserRoles reads before it writes; its result is the validated roles.
unfoldable pub check_set_roles :
    Tools → Outage → AuthDb → String → String → List String → Result AuthError (List String)
unfolding check_demotion validate_roles load_user get_roles
check_set_roles t o db actor id roles = validate_roles t.trim roles >>= (λ next.
    load_user o db id >>= (λ user.
      get_roles o.roles_fail db.directory id
      >>= (λ current. check_demotion t o db actor user next current >> ok next)))

unfoldable pub tell_roles :
    Outage
    → AuthDb
    → String
    → String
    → Result AuthError Directory
    → AuthDb × Result AuthError (Unit {0})
unfolding record_audit
tell_roles o db actor id (err e) = (db, err e)
tell_roles o db actor id (ok d) = (
  record_audit o.audit_fails (record db { directory = d })
      (admin_event actor "admin.user.set_roles" id),
  ok tt,
)

unfoldable pub set_checked_roles :
    Outage
    → AuthDb
    → String
    → String
    → Result AuthError (List String)
    → AuthDb × Result AuthError (Unit {0})
unfolding tell_roles set_roles
set_checked_roles o db actor id (err e) = (db, err e)
set_checked_roles o db actor id (ok next) =
    tell_roles o db actor id (set_roles o.set_roles_fails db.directory id next)

unfoldable pub set_user_roles :
    Tools → Outage → AuthDb → String → String → List String → AuthDb × Result AuthError (Unit {0})
unfolding set_checked_roles check_set_roles
set_user_roles t o db actor id roles =
    set_checked_roles o db actor id (check_set_roles t o db actor id roles)

-- The roles but one.
unfoldable pub without_role : List String → String → List String
without_role [] role = []
without_role (current ∷ roles) role =
    let rest = without_role roles role in if same current role then rest else current ∷ rest

unfoldable pub remove_from :
    Tools
    → Outage
    → AuthDb
    → String
    → String
    → String
    → Result AuthError (List String)
    → AuthDb × Result AuthError (Unit {0})
unfolding set_user_roles without_role
remove_from t o db actor id role (err e) = (db, err e)
remove_from t o db actor id role (ok current) =
    set_user_roles t o db actor id (without_role current role)

unfoldable pub remove_user_role :
    Tools → Outage → AuthDb → String → String → String → AuthDb × Result AuthError (Unit {0})
unfolding remove_from get_roles
remove_user_role t o db actor id role =
    remove_from t o db actor id role (get_roles o.roles_fail db.directory id)

unfoldable pub revoke_loaded :
    Outage
    → ℕ
    → AuthDb
    → String
    → String
    → Result AuthError User
    → AuthDb × Result AuthError (Unit {0})
unfolding end_sessions
revoke_loaded o now db actor id (err e) = (db, err e)
revoke_loaded o now db actor id (ok user) =
    end_sessions o now db true id "admin_revoke_sessions"
      (admin_event actor "admin.user.revoke_sessions" id)

unfoldable pub revoke_user_sessions :
    Outage → ℕ → AuthDb → String → String → AuthDb × Result AuthError (Unit {0})
unfolding revoke_loaded load_user
revoke_user_sessions o now db actor id = revoke_loaded o now db actor id (load_user o db id)
