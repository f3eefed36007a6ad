-- ===== src/Auth/Admin/Services.antt =====
-- The service accounts in ms-auth/internal/usecase/admin_service.go. The arguments `raw` and `id`
-- are the bytes that io.ReadFull delivers, `none` where it fails, and the key that the database
-- draws.
use controlitix.Common.{
  ℕ, String, Bool, true, not, ◌||◌, List, [], Option, none, some, same, string_key,
}
use controlitix.Common.Map.{Map}
use controlitix.Common.Result.{Result, ok, err, ◌>>=◌, ◌>>◌, refuse_if}
use controlitix.Auth.Types.{ServiceAccount, AuditEvent, AuthError}
use controlitix.Auth.Names.{validate_scopes}
use controlitix.Auth.Tokens.{or_error}
use controlitix.Auth.Accounts.{
  create_account, find_account, update_account, update_secret_hash, delete_account,
}
use controlitix.Auth.Admin.{AuthDb, Tools, Outage, admin_event, record_audit}

-- The calls of libraries beyond those of Tools.
pub record SecretTools : Type 0 where
  pub tools : Tools
  pub has_space : String → Bool  -- strings.Contains(_, " ")
  pub is_client_id : String → Bool  -- clientIDPattern.MatchString
  pub encode : List ℕ → String  -- base64.RawURLEncoding.EncodeToString

pub record CreateServiceAccountInput : Type 0 where
  pub client_id : String
  pub display_name : String
  pub scopes : List String

pub record UpdateServiceAccountInput : Type 0 where
  pub display_name : Option String
  pub scopes : Option (List String)
  pub is_active : Option Bool

module _ (s : SecretTools) (o : Outage) where
  open s.tools use {trim, hash}

  -- The secret and its hash.
  unfoldable pub generate_service_secret : Option (List ℕ) → Result AuthError (String × String)
  generate_service_secret raw = or_error AuthError.internal raw >>= (λ bytes.
      or_error AuthError.internal (hash (s.encode bytes))
      >>= (λ hashed. ok (s.encode bytes, hashed)))

  -- The row of a new account, and its secret.
  unfoldable pub new_account :
      Option (List ℕ) → CreateServiceAccountInput → Result AuthError (ServiceAccount × String)
  unfolding generate_service_secret validate_scopes
  new_account raw input = validate_scopes trim s.has_space [] input.scopes >>= (λ scopes.
      refuse_if (not (s.is_client_id (trim input.client_id)) || same (trim input.display_name) "")
        AuthError.validation
      >> (generate_service_secret raw >>= (λ secret. ok (
        record {
          id = "";
          client_id = trim input.client_id;
          client_secret_hash = secret.1;
          display_name = trim input.display_name;
          scopes = scopes;
          is_active = true;
          last_used_at = none;
        },
        secret.0,
      ))))

  unfoldable pub tell_account :
      AuthDb
      → String
      → String
      → Result AuthError (Map String ServiceAccount × ServiceAccount)
      → AuthDb × Result AuthError (ServiceAccount × String)
  unfolding record_audit
  tell_account db actor secret (err e) = (db, err e)
  tell_account db actor secret (ok (accounts, a)) = (
    record_audit o.audit_fails (record db { accounts = accounts })
        (admin_event actor "admin.service_account.create" a.client_id),
    ok (a, secret),
  )

  unfoldable pub store_account :
      String
      → AuthDb
      → String
      → Result AuthError (ServiceAccount × String)
      → AuthDb × Result AuthError (ServiceAccount × String)
  unfolding tell_account create_account
  store_account id db actor (err e) = (db, err e)
  store_account id db actor (ok (a, secret)) =
      tell_account db actor secret (create_account trim s.has_space o.create_fails db.accounts id a)

  unfoldable pub create_service_account :
      String
      → Option (List ℕ)
      → AuthDb
      → String
      → CreateServiceAccountInput
      → AuthDb × Result AuthError (ServiceAccount × String)
  unfolding store_account new_account
  create_service_account id raw db actor input = store_account id db actor (new_account raw input)

  -- The audit event of a write that succeeded, and its answer.
  unfoldable pub tell_service :
      {A : Type 0}
      → AuthDb
      → AuditEvent
      → A
      → Result AuthError (Map String ServiceAccount)
      → AuthDb × Result AuthError A
  unfolding record_audit
  tell_service db e answer (err x) = (db, err x)
  tell_service db e answer (ok accounts) =
      (record_audit o.audit_fails (record db { accounts = accounts }) e, ok answer)

  unfoldable pub store_secret :
      AuthDb
      → String
      → String
      → ServiceAccount
      → Result AuthError (String × String)
      → AuthDb × Result AuthError String
  unfolding tell_service update_secret_hash
  store_secret db actor id a (err e) = (db, err e)
  store_secret db actor id a (ok (secret, hashed)) =
      tell_service db (admin_event actor "admin.service_account.rotate_secret" a.client_id) secret
        (update_secret_hash o.update_fails db.accounts id hashed)

  unfoldable pub rotate_loaded :
      Option (List ℕ)
      → AuthDb
      → String
      → String
      → Result AuthError ServiceAccount
      → AuthDb × Result AuthError String
  unfolding store_secret generate_service_secret
  rotate_loaded raw db actor id (err e) = (db, err e)
  rotate_loaded raw db actor id (ok a) = store_secret db actor id a (generate_service_secret raw)

  unfoldable pub rotate_service_account_secret :
      Option (List ℕ) → AuthDb → String → String → AuthDb × Result AuthError String
  unfolding rotate_loaded find_account
  rotate_service_account_secret raw db actor id =
      rotate_loaded raw db actor id (find_account trim s.has_space o.find_fails db.accounts id)

  -- The fields of an update, checked in the order of the source.
  abbrev pub renamed : Option String → ServiceAccount → Result AuthError ServiceAccount
  renamed none a = ok a
  renamed (some name) a =
      refuse_if (same (trim name) "") AuthError.validation
      >> ok (record a { display_name = trim name })

  abbrev pub switched : Option Bool → ServiceAccount → ServiceAccount
  switched none a = a
  switched (some active) a = record a { is_active = active }

  unfoldable pub rescoped : Option (List String) → ServiceAccount → Result AuthError ServiceAccount
  unfolding validate_scopes
  rescoped none a = ok a
  rescoped (some scopes) a =
      validate_scopes trim s.has_space [] scopes >>= (λ valid. ok (record a { scopes = valid }))

  unfoldable pub changed_account :
      UpdateServiceAccountInput → ServiceAccount → Result AuthError ServiceAccount
  unfolding rescoped
  changed_account input a =
      renamed input.display_name a
      >>= (λ named. rescoped input.scopes (switched input.is_active named))

  unfoldable pub write_account :
      AuthDb → String → Result AuthError ServiceAccount → AuthDb × Result AuthError (Unit {0})
  unfolding tell_service update_account
  write_account db actor (err e) = (db, err e)
  write_account db actor (ok a) =
      tell_service db (admin_event actor "admin.service_account.update" a.client_id) tt
        (update_account trim s.has_space o.update_fails db.accounts a)

  unfoldable pub update_service_account :
      AuthDb → String → String → UpdateServiceAccountInput → AuthDb × Result AuthError (Unit {0})
  unfolding write_account changed_account find_account
  update_service_account db actor id input =
      write_account db actor (
        find_account trim s.has_space o.find_fails db.accounts id
        >>= (λ a. changed_account input a))

  unfoldable pub delete_loaded :
      AuthDb
      → String
      → String
      → Result AuthError ServiceAccount
      → AuthDb × Result AuthError (Unit {0})
  unfolding tell_service delete_account
  delete_loaded db actor id (err e) = (db, err e)
  delete_loaded db actor id (ok a) =
      tell_service db (admin_event actor "admin.service_account.delete" a.client_id) tt
        (delete_account o.update_fails db.accounts id)

  unfoldable pub delete_service_account :
      AuthDb → String → String → AuthDb × Result AuthError (Unit {0})
  unfolding delete_loaded find_account
  delete_service_account db actor id =
      delete_loaded db actor id (find_account trim s.has_space o.find_fails db.accounts id)
