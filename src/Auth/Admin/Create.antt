-- ===== src/Auth/Admin/Create.antt =====
-- CreateUser of ms-auth/internal/usecase/admin_service.go. The arguments `id` and `subject_id` are the
-- key that the database draws and the identifier of newUUIDv4String, `none` where it fails.
use controlitix.Common.{
  String, Bool, true, false, not, ◌||◌, List, Option, none, some, same, if◌then◌else◌, string_key,
  nat_key,
}
use Prim.Native.String.{◌++◌ as joined}
use controlitix.Common.Map.{get}
use controlitix.Common.Result.{Result, ok, err, ◌>>=◌, ◌>>◌, refuse_if}
use controlitix.Auth.Types.{User, IdentitySource, AuthError, Directory}
use controlitix.Auth.Names.{validate_roles}
use controlitix.Auth.Tokens.{unless_fails, or_error}
use controlitix.Auth.Users.{create_user_row, set_roles}
use controlitix.Auth.Admin.{AuthDb, Tools, Outage, admin_event, record_audit}

pub record CreateUserInput : Type 0 where
  pub username : String
  pub display_name : String
  pub email : String
  pub password : String
  pub roles : List String

abbrev pub is_enabled : Option IdentitySource → Bool
is_enabled none = false
is_enabled (some s) = s.is_enabled

-- CreateUser up to the first write.
unfoldable pub new_user :
    Tools → Outage → Option String → AuthDb → CreateUserInput → Result AuthError User
new_user t o subject_id db input =
    unless_fails o.source_fails (ok (get db.directory.sources 1)) >>= (λ source.
      refuse_if (not (is_enabled source)) AuthError.source_disabled
      >> (or_error AuthError.internal (t.hash (t.trim input.password)) >>= (λ password_hash.
          or_error AuthError.internal subject_id >>= (λ subject. ok (record {
            id = "";
            subject = joined "local:" subject;
            source_id = 1;
            username = t.trim input.username;
            display_name = t.trim input.display_name;
            email = t.trim input.email;
            password_hash = password_hash;
            is_active = true;
            last_login_at = none;
          })))))

unfoldable pub tell_created :
    Outage → AuthDb → String → User → Result AuthError Directory → AuthDb × Result AuthError User
unfolding record_audit
tell_created o db actor user (err e) = (db, err e)
tell_created o db actor user (ok d) = (
  record_audit o.audit_fails (record db { directory = d })
      (admin_event actor "admin.user.create" user.id),
  ok user,
)

-- A failed SetRoles leaves the user without roles.
unfoldable pub give_roles :
    Outage
    → AuthDb
    → String
    → List String
    → Result AuthError (Directory × User)
    → AuthDb × Result AuthError User
unfolding tell_created set_roles
give_roles o db actor roles (err e) = (db, err e)
give_roles o db actor roles (ok (d, user)) =
    tell_created o (record db { directory = d }) actor user
      (set_roles o.set_roles_fails d user.id roles)

unfoldable pub store_user :
    Tools
    → Outage
    → String
    → AuthDb
    → String
    → List String
    → Result AuthError User
    → AuthDb × Result AuthError User
unfolding give_roles create_user_row
store_user t o id db actor roles (err e) = (db, err e)
store_user t o id db actor roles (ok user) =
    give_roles o db actor roles (create_user_row t.lower o.create_fails db.directory id user)

unfoldable pub create_validated :
    Tools
    → Outage
    → String
    → Option String
    → AuthDb
    → String
    → CreateUserInput
    → Result AuthError (List String)
    → AuthDb × Result AuthError User
unfolding store_user new_user
create_validated t o id subject_id db actor input (err e) = (db, err e)
create_validated t o id subject_id db actor input (ok roles) =
    store_user t o id db actor roles (new_user t o subject_id db input)

unfoldable pub create_user :
    Tools
    → Outage
    → String
    → Option String
    → AuthDb
    → String
    → CreateUserInput
    → AuthDb × Result AuthError User
unfolding create_validated validate_roles
create_user t o id subject_id db actor input =
    if same (t.trim input.username) "" || same (t.trim input.password) ""
    then (db, err AuthError.validation)
    else create_validated t o id subject_id db actor input (validate_roles t.trim input.roles)
