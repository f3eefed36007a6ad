-- ===== src/Auth/Admin/Update.antt =====
-- UpdateUser and DeactivateUser of ms-auth/internal/usecase/admin_service.go.
use controlitix.Common.{
  ℕ, String, Bool, true, false, not, ◌&&◌, Option, none, some, same, if◌then◌else◌, string_key,
  nat_key,
}
use controlitix.Common.Result.{Result, ok, err, ◌>>=◌, ◌>>◌, refuse_if}
use controlitix.Auth.Types.{User, AuditEvent, AuthError, Directory}
use controlitix.Auth.Tokens.{or_error}
use controlitix.Auth.Users.{UserChange, update}
use controlitix.Auth.Admin.{
  AuthDb, Tools, Outage, admin_event, load_user, ensure_can_deactivate_user, end_sessions,
}

pub record UpdateUserInput : Type 0 where
  pub display_name : Option String
  pub email : Option String
  pub password : Option String
  pub is_active : Option Bool

-- The hash of a new password, if there is one.
unfoldable pub password_change : Tools → Option String → Result AuthError (Option String)
password_change t none = ok none
password_change t (some password) =
    refuse_if (same (t.trim password) "") AuthError.validation
    >> (or_error AuthError.internal (t.hash (t.trim password)) >>= (λ hash. ok (some hash)))

-- input.IsActive != nil && !*input.IsActive && user.IsActive
abbrev pub deactivates : Option Bool → User → Bool
deactivates none user = false
deactivates (some active) user = not active && user.is_active

-- Everything that an update or a deactivation checks before it writes.
unfoldable pub check_update :
    Tools → Outage → AuthDb → String → UpdateUserInput → User → Result AuthError (Option String)
unfolding password_change ensure_can_deactivate_user
check_update t o db actor input user = password_change t input.password >>= (λ hash.
    (if deactivates input.is_active user
      then ensure_can_deactivate_user t o db user actor
      else ok tt)
    >> ok hash)

abbrev pub returning : User → AuthDb × Result AuthError (Unit {0}) → AuthDb × Result AuthError User
returning user (db, done) = (db, done >> ok user)

unfoldable pub tell_updated :
    Outage
    → ℕ
    → AuthDb
    → Bool
    → String
    → AuditEvent
    → Directory × Result AuthError User
    → AuthDb × Result AuthError User
unfolding end_sessions
tell_updated o now db revokes id e (d, err x) = (record db { directory = d }, err x)
tell_updated o now db revokes id e (d, ok user) =
    returning user
      (end_sessions o now (record db { directory = d }) revokes id "admin_deactivate" e)

abbrev pub change_of : UpdateUserInput → Option String → UserChange
change_of input hash = record {
  display_name = input.display_name;
  email = input.email;
  password_hash = hash;
  is_active = input.is_active;
}

unfoldable pub write_update :
    Tools
    → Outage
    → ℕ
    → AuthDb
    → String
    → String
    → UpdateUserInput
    → User
    → Result AuthError (Option String)
    → AuthDb × Result AuthError User
unfolding tell_updated update
write_update t o now db actor id input user (err e) = (db, err e)
write_update t o now db actor id input user (ok hash) =
    tell_updated o now db (deactivates input.is_active user) id
      (admin_event actor "admin.user.update" id)
      (update t.trim o.update_fails o.reload_fails db.directory id (change_of input hash))

unfoldable pub update_loaded :
    Tools
    → Outage
    → ℕ
    → AuthDb
    → String
    → String
    → UpdateUserInput
    → Result AuthError User
    → AuthDb × Result AuthError User
unfolding write_update check_update
update_loaded t o now db actor id input (err e) = (db, err e)
update_loaded t o now db actor id input (ok user) =
    write_update t o now db actor id input user (check_update t o db actor input user)

unfoldable pub update_user :
    Tools → Outage → ℕ → AuthDb → String → String → UpdateUserInput → AuthDb × Result AuthError User
unfolding update_loaded load_user
update_user t o now db actor id input = update_loaded t o now db actor id input (load_user o db id)

-- DeactivateUser writes no other column.
abbrev pub deactivation : UserChange
deactivation = record {
  display_name = none;
  email = none;
  password_hash = none;
  is_active = some false;
}

unfoldable pub finish_deactivation :
    Outage
    → ℕ
    → AuthDb
    → String
    → String
    → Directory × Result AuthError User
    → AuthDb × Result AuthError (Unit {0})
unfolding end_sessions
finish_deactivation o now db actor id (d, err e) = (record db { directory = d }, err e)
finish_deactivation o now db actor id (d, ok user) =
    end_sessions o now (record db { directory = d }) true id "admin_deactivate"
      (admin_event actor "admin.user.deactivate" id)

-- DeactivateUser after its checks.
unfoldable pub deactivate_checked :
    Tools
    → Outage
    → ℕ
    → AuthDb
    → String
    → String
    → Result AuthError (Unit {0})
    → AuthDb × Result AuthError (Unit {0})
unfolding finish_deactivation update
deactivate_checked t o now db actor id (err e) = (db, err e)
deactivate_checked t o now db actor id (ok passed) =
    finish_deactivation o now db actor id
      (update t.trim o.update_fails o.reload_fails db.directory id deactivation)

unfoldable pub deactivate_loaded :
    Tools
    → Outage
    → ℕ
    → AuthDb
    → String
    → String
    → Result AuthError User
    → AuthDb × Result AuthError (Unit {0})
unfolding deactivate_checked ensure_can_deactivate_user
deactivate_loaded t o now db actor id (err e) = (db, err e)
deactivate_loaded t o now db actor id (ok user) =
    if user.is_active
    then deactivate_checked t o now db actor id (ensure_can_deactivate_user t o db user actor)
    else (db, ok tt)

unfoldable pub deactivate_user :
    Tools → Outage → ℕ → AuthDb → String → String → AuthDb × Result AuthError (Unit {0})
unfolding deactivate_loaded load_user
deactivate_user t o now db actor id = deactivate_loaded t o now db actor id (load_user o db id)
