-- ===== src/Auth/Accounts.antt =====
-- The service accounts: ms-auth/internal/infrastructure/repository/service_account_repository.go
-- over the table auth.service_accounts. A flag `fails` stands for a database error. The arguments
-- `trim` and `has_space` are strings.TrimSpace and strings.Contains(_, " ").
use controlitix.Common.{
  ℕ, String, Bool, ◌||◌, List, [], ◌∷◌, Option, none, some, same, is_some, if◌then◌else◌,
  string_key,
}
use controlitix.Common.Map.{Map, get, put, delete}
use controlitix.Common.Result.{Result, ok, err}
use controlitix.Auth.Types.{ServiceAccount, AuthError}
use controlitix.Auth.Names.{add_name}
use controlitix.Auth.Tokens.{unless_fails, or_error}

-- One round of the loop of normalizeScopes, after TrimSpace.
unfoldable pub keep_scope : (String → Bool) → List String → String → List String
unfolding add_name
keep_scope has_space scopes scope = if has_space scope then scopes else add_name scopes scope

unfoldable pub normalize_scopes :
    (String → String) → (String → Bool) → List String → List String → List String
unfolding keep_scope
normalize_scopes trim has_space scopes [] = scopes
normalize_scopes trim has_space scopes (scope ∷ rest) =
    normalize_scopes trim has_space (keep_scope has_space scopes (trim scope)) rest

-- The row of a client identifier, which a unique index makes the only one.
unfoldable pub account_of : Map String ServiceAccount → String → Option ServiceAccount
account_of [] client = none
account_of ((id, a) ∷ accounts) client =
    let rest = account_of accounts client in if same a.client_id client then some a else rest

-- UPDATE of the row of a key, and its error if there is none.
abbrev pub rewrite :
    Map String ServiceAccount
    → String
    → (ServiceAccount → ServiceAccount)
    → Option ServiceAccount
    → Result AuthError (Map String ServiceAccount)
rewrite accounts id change none = err AuthError.service_not_found
rewrite accounts id change (some a) = ok (put accounts id (change a))

unfoldable pub update_secret_hash :
    Bool
    → Map String ServiceAccount
    → String
    → String
    → Result AuthError (Map String ServiceAccount)
update_secret_hash fails accounts id hash =
    unless_fails fails
      (rewrite accounts id (λ a. record a { client_secret_hash = hash }) (get accounts id))

abbrev pub forget :
    Map String ServiceAccount
    → String
    → Option ServiceAccount
    → Result AuthError (Map String ServiceAccount)
forget accounts id none = err AuthError.service_not_found
forget accounts id (some a) = ok (delete accounts id)

unfoldable pub delete_account :
    Bool → Map String ServiceAccount → String → Result AuthError (Map String ServiceAccount)
delete_account fails accounts id = unless_fails fails (forget accounts id (get accounts id))

-- No row is no error here.
abbrev pub stamp :
    Map String ServiceAccount → String → ℕ → Option ServiceAccount → Map String ServiceAccount
stamp accounts id at none = accounts
stamp accounts id at (some a) = put accounts id (record a { last_used_at = some at })

unfoldable pub update_last_used :
    Bool → Map String ServiceAccount → String → ℕ → Result AuthError (Map String ServiceAccount)
update_last_used fails accounts id at =
    unless_fails fails (ok (stamp accounts id at (get accounts id)))

module _ (trim : String → String) (has_space : String → Bool) where
  -- The scopes of a row are normalised when they are written, and when it is read.
  abbrev pub with_scopes : ServiceAccount → ServiceAccount
  with_scopes a = record a { scopes = normalize_scopes trim has_space [] a.scopes }

  -- scanServiceAccount
  abbrev pub scanned : Option ServiceAccount → Option ServiceAccount
  scanned none = none
  scanned (some a) = some (with_scopes a)

  unfoldable pub find_by_client_id :
      Bool → Map String ServiceAccount → String → Result AuthError (Option ServiceAccount)
  unfolding account_of normalize_scopes
  find_by_client_id fails accounts client =
      unless_fails fails (ok (scanned (account_of accounts client)))

  -- FindByID, with the error that its callers make of no row.
  unfoldable pub find_account :
      Bool → Map String ServiceAccount → String → Result AuthError ServiceAccount
  unfolding normalize_scopes
  find_account fails accounts id =
      unless_fails fails (or_error AuthError.service_not_found (scanned (get accounts id)))

  -- INSERT with the key `id` that the database chooses.
  unfoldable pub create_account :
      Bool
      → Map String ServiceAccount
      → String
      → ServiceAccount
      → Result AuthError (Map String ServiceAccount × ServiceAccount)
  unfolding account_of
  create_account fails accounts id a =
      if fails || is_some (get accounts id)
      then err AuthError.internal
      else if is_some (account_of accounts a.client_id)
      then err AuthError.client_id_exists
      else ok
          (put accounts id (record (with_scopes a) { id = id }), record (with_scopes a) { id = id })

  -- UPDATE of the name, the scopes and the flag.
  unfoldable pub update_account :
      Bool
      → Map String ServiceAccount
      → ServiceAccount
      → Result AuthError (Map String ServiceAccount)
  unfolding normalize_scopes
  update_account fails accounts a = unless_fails fails (
      rewrite accounts a.id
        (λ old. record old {
          display_name = a.display_name;
          scopes = normalize_scopes trim has_space [] a.scopes;
          is_active = a.is_active;
        })
        (get accounts a.id))
