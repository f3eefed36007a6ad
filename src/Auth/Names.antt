-- ===== src/Auth/Names.antt =====
-- The lists of roles and scopes: normalizeList of ms-auth/internal/usecase/token_service.go,
-- mergeRoles of auth_service.go, validateRoles, validateScopes and containsRole of
-- admin_service.go, normalizeRequestedScopes and resolveGrantedScopes of service_token_service.go.
-- Each loop keeps a set of the names that it has appended to its result: here the result itself is
-- asked. The arguments `trim`, `fields` and `has_space` are strings.TrimSpace, strings.Fields and
-- strings.Contains(_, " ").
pub mod Scopes
use controlitix.Common.{
  String, Bool, true, false, ◌||◌, List, [], ◌∷◌, ◌++◌, if◌then◌else◌, same, is_empty, ◌≡◌, ◌≢◌,
  refl, In, In-append, In-append_left, All, All-append, All-mono, ◌⊎◌, inl, inr, string_key, arith,
  Bool-cases, if_elim,
}
use controlitix.Common.Result.{Result, ok, err, ◌>>=◌, Result-cases}
use controlitix.Auth.Types.{AuthError}

unfoldable pub contains_role : List String → String → Bool
contains_role [] role = false
contains_role (value ∷ roles) role =
    let rest = contains_role roles role in if same value role then true else rest

-- One round of the loop, after TrimSpace.
unfoldable pub add_name : List String → String → List String
unfolding contains_role
add_name names name = if same name "" || contains_role names name then names else names ++ name ∷ []

unfoldable pub add_names : (String → String) → List String → List String → List String
unfolding add_name
add_names trim names [] = names
add_names trim names (name ∷ rest) = add_names trim (add_name names (trim name)) rest

unfoldable pub normalize_list : (String → String) → List String → List String
unfolding add_names
normalize_list trim names = add_names trim [] names

-- Of two role sets, as Authenticate calls it.
unfoldable pub merge_roles : (String → String) → List String → List String → List String
unfolding add_names
merge_roles trim local mapped = add_names trim (add_names trim [] local) mapped

-- AllowedRoles of ms-auth/internal/domain/user.go.
abbrev pub is_allowed_role : String → Bool
is_allowed_role role = same role "admin" || same role "engineer" || same role "operator"

unfoldable pub validate_role : List String → String → Result AuthError (List String)
unfolding contains_role
validate_role roles role =
    if same role "" || contains_role roles role
    then ok roles
    else if is_allowed_role role
    then ok (roles ++ role ∷ [])
    else err AuthError.validation

unfoldable pub validate_rest :
    (String → String) → List String → List String → Result AuthError (List String)
unfolding validate_role
validate_rest trim roles [] = ok roles
validate_rest trim roles (role ∷ rest) =
    validate_role roles (trim role) >>= (λ next. validate_rest trim next rest)

unfoldable pub validate_roles : (String → String) → List String → Result AuthError (List String)
unfolding validate_rest
validate_roles trim input = validate_rest trim [] input

unfoldable pub validate_scope :
    (String → Bool) → List String → String → Result AuthError (List String)
unfolding add_name
validate_scope has_space scopes scope =
    if same scope ""
    then ok scopes
    else if has_space scope
    then err AuthError.validation
    else ok (add_name scopes scope)

unfoldable pub validate_scopes :
    (String → String) → (String → Bool) → List String → List String → Result AuthError (List String)
unfolding validate_scope
validate_scopes trim has_space scopes [] = ok scopes
validate_scopes trim has_space scopes (scope ∷ rest) =
    validate_scope has_space scopes (trim scope)
    >>= (λ next. validate_scopes trim has_space next rest)

unfoldable pub check_scopes : List String → List String → Bool
unfolding contains_role
check_scopes allowed [] = true
check_scopes allowed (scope ∷ rest) =
    let others = check_scopes allowed rest in if contains_role allowed scope then others else false

unfoldable pub grant : List String → List String → Result AuthError (List String)
unfolding check_scopes
grant allowed requested =
    if is_empty requested
    then ok allowed
    else if check_scopes allowed requested
    then ok requested
    else err AuthError.invalid_scope

unfoldable pub resolve_granted_scopes :
    (String → String)
    → (String → List String)
    → List String
    → String
    → Result AuthError (List String)
unfolding grant normalize_list
resolve_granted_scopes trim fields allowed requested =
    grant (normalize_list trim allowed) (normalize_list trim (fields requested))
